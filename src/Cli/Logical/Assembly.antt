-- ===== src/Cli/Logical/Assembly.antt =====
-- The assignments of the workers, from the cuts; and both planners, for any way to project a target.
use mmap_chunker_core.Base.{
  ℕ, zero, suc, ◌+◌, ◌-◌, ◌*◌, ◌/◌, ◌≤◌, ◌<◌, ◌≡◌, refl, ap, arith, min, max, List, [], ◌∷◌, ◌++◌,
  length, length-append, Bool-cases, inl, inr, ◌==◌, leb, done, ok, usize_max,
}
use mmap_chunker_core.Ranges.{concat}
use mmap_chunker_core.Scanner.Partition.{ranges_from}
use mmap_chunker_core.Cli.{Attempt, Message, usize_to_u128}
use mmap_chunker_core.Cli.Logical.{
  SourceRange, push_prefixes, last, map, assign, plan_prefixes, plan_over,
}
use mmap_chunker_core.Cli.Logical.Reference.{
  total, sums, logical_cut, inner_cuts, dataset_ranges, split, assignments,
}
use mmap_chunker_core.Cli.Logical.Intervals.{ranges_for_interval-split}
use mmap_chunker_core.Cli.Logical.Projection.{logical_cut_bounds}
use mmap_chunker_core.Cli.Logical.Rounds.{Ends, Projects, target_lt, cut_loop-inner_cuts}

-- The prefixes that the planners push are the offsets of the files, and the last is the size of all.
pub push_prefixes-sums :
    (files : List (List ℕ)) (base : ℕ)
    → base + total files ≤ usize_max
    → (pushed : List ℕ) × (push_prefixes base (map length files) ≡ done (ok pushed))
      × (base ∷ pushed ≡ sums base files)
      × (last base pushed ≡ base + total files)
unfolding push_prefixes usize_to_u128
push_prefixes-sums [] base h = ([], refl, refl, omega arith)
push_prefixes-sums (xs ∷ files) base h =
    let size = length-append xs (concat files) in
    let (pushed, run, same, end) = push_prefixes-sums files (base + length xs) (omega arith) in
    (
      (base + length xs) ∷ pushed,
      ground (arith, run),
      ap (λ (ps : List ℕ). base ∷ ps) same,
      omega arith,
    )

-- Cut points in order behind `start`, before the end.
abbrev pub Rises : ℕ → ℕ → List ℕ → Type 0
Rises size start [] = start < size
Rises size start (b ∷ bs) = (start < b) × (b < size) × Rises size b bs

module _ (cut : ℕ → ℕ) (size n : ℕ) (bounds : (t : ℕ) → t < size → (t ≤ cut t) × (cut t ≤ size))
    (capped : n ≤ size) where
  pub inner_cuts-Rises :
      (left i start : ℕ)
      → i + left ≤ n
      → start < size
      → Rises size start (inner_cuts cut size n left i start)
  unfolding inner_cuts
  inner_cuts-Rises zero i start h lt = lt
  inner_cuts-Rises (suc left) i start h lt = ground (
    arith,
    target_lt size n i (omega arith) capped,
    bounds (size * i / n),
    inner_cuts-Rises left (i + 1) start (omega arith),
    inner_cuts-Rises left (i + 1) (cut (size * i / n)) (omega arith),
  )

pub inner_cuts_none :
    (cut : ℕ → ℕ) (size n left i last : ℕ) → left ≡ 0 → inner_cuts cut size n left i last ≡ []
unfolding inner_cuts
inner_cuts_none cut size n zero i last e = refl
inner_cuts_none cut size n (suc left) i last e = absurd (omega arith)

-- Some file has a part in an interval that is not empty.
split_nonempty :
    (start end i base : ℕ) (files : List (List ℕ))
    → max start base < min end (base + total files)
    → (r : SourceRange) × (rs : List SourceRange) × (split start end i base files ≡ r ∷ rs)
unfolding split
split_nonempty start end i base [] h = absurd (omega arith)
split_nonempty start end i base (xs ∷ files) h =
    let b = base + length xs in
    let size = length-append xs (concat files) in
    elim (Bool-cases (leb (min end b) (max start base))) [
      | inl outside ↦
          let (r, rs, e) = split_nonempty start end (i + 1) b files (ground arith) in
          (r, rs, ground arith)
      | inr inside ↦
          let range : SourceRange = record {
            source_index = i;
            start = max start base - base;
            end_exclusive = min end b - base;
            length = min end b - max start base;
          } in
          (range, split start end (i + 1) b files, rw inside refl)
    ]

module _ (files : List (List ℕ)) (small : total files ≤ usize_max) where
  assign-assignments :
      (cuts : List ℕ) (worker start : ℕ)
      → Rises (total files) start cuts
      → assign (sums 0 files) (length files) worker start (cuts ++ total files ∷ [])
        ≡ done (ok (assignments files worker (ranges_from (total files) start cuts)))
  unfolding assign assignments ranges_from
  assign-assignments [] worker start h =
      let (r, rs, e) = split_nonempty start (total files) 0 0 files (omega arith) in
      ground
        (arith, e, ranges_for_interval-split start (total files) (sums 0 files) files refl small)
  assign-assignments (b ∷ bs) worker start (lt, inside, h) =
      let (r, rs, e) = split_nonempty start b 0 0 files (omega arith) in
      ground (
        arith,
        e,
        ranges_for_interval-split start b (sums 0 files) files refl small lt,
        assign-assignments bs (worker + 1) b h,
      )

  module _ {State : Type 0} (project : List ℕ → ℕ → State → Attempt (ℕ × State))
      (Inv : ℕ → State → Type 0) (Bad : Message → Type 0) (p : List ℕ)
      (projects : Projects (project (sums 0 files)) (logical_cut p files) (total files) Inv Bad)
      (state : State) (start : Inv 0 state) where
    plan_prefixes-assignments :
        (parts : ℕ)
        → 0 < total files
        → 0 < parts
        → Ends Bad
            (plan_prefixes
              (project (sums 0 files))
              state
              (sums 0 files)
              (total files)
              (length files)
              parts)
            (assignments files 0 (dataset_ranges p files parts))
    unfolding plan_prefixes dataset_ranges
    plan_prefixes-assignments parts pos asked =
        let size = total files in
        let n = min parts size in
        let bounds = logical_cut_bounds p files in
        let assigned =
          assign-assignments (inner_cuts (logical_cut p files) size n (n - 1) 1 0) 0 0 (
            inner_cuts-Rises (logical_cut p files) size n bounds (omega arith) (n - 1) 1 0
              (omega arith) pos) in
        let looped =
          cut_loop-inner_cuts (project (sums 0 files)) (logical_cut p files) size Inv Bad projects
            (λ t h. (bounds t h).0) small n (omega arith) (n - 1) 1 0 state (omega arith) start in
        elim looped [
          | inl e ↦ inl (ground arith)
          | inr (e, failed, bad) ↦ inr (e, ground arith, bad)
        ]

    pub plan_over-assignments :
        (pushing : Attempt (List ℕ)) (pushed : List ℕ) (parts : ℕ)
        → pushing ≡ done (ok pushed)
        → 0 ∷ pushed ≡ sums 0 files
        → last 0 pushed ≡ total files
        → Ends Bad
            (plan_over project state pushing (length files) parts)
            (assignments files 0 (dataset_ranges p files parts))
    plan_over-assignments pushing pushed parts run same end =
        let empty = inner_cuts_none (logical_cut p files) (total files) in
        elim (Bool-cases (parts == 0)) [
          | inl unasked ↦ inl (unfold plan_over assignments dataset_ranges in ground arith)
          | inr asked ↦ elim (Bool-cases (total files == 0)) [
            | inl nothing ↦
                let n = min parts (total files) in
                inl (
                  unfold plan_over assignments dataset_ranges ranges_from in
                  ground (arith, run, end, empty n (n - 1) 1 0))
            | inr something ↦
                let step : plan_over project state pushing (length files) parts
                    ≡ plan_prefixes (project (sums 0 files)) state (sums 0 files) (total files)
                        (length files) parts =
                  unfold plan_over in ground (arith, run, end, same) in
                rw step (plan_prefixes-assignments parts (ground arith) (ground arith))
          ]
        ]
