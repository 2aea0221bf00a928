-- ===== src/Cli/Logical/Rows.antt =====
-- The rows of the plan: each is a part of its own file that ends behind a delimiter of that file, or with
-- that file.
use mmap_chunker_core.Base.{
  ℕ, zero, suc, ◌+◌, ◌-◌, ◌*◌, ◌/◌, ◌≤◌, ◌<◌, ◌≡◌, refl, sym, ap, ◌∙◌, arith, min, max, List, [],
  ◌∷◌, length, drop, drop-drop, length-append, Bool-cases, inl, inr, ◌==◌, leb, ltb, All,
}
use mmap_chunker_core.Ranges.{Range, concat, parts}
use mmap_chunker_core.Scanner.Partition.Reference.{
  snap_cut, IsCut, snap_cut_bounds, snap_cut-ends_at,
}
use mmap_chunker_core.Scanner.Partition.Assembly.{ranges_from-ends}
use mmap_chunker_core.Cli.Logical.{SourceRange, WorkerAssignment}
use mmap_chunker_core.Cli.Logical.Reference.{
  total, logical_cut, inner_cuts, dataset_ranges, split, assignments, file_at,
}
use mmap_chunker_core.Cli.Logical.Intervals.{file_at-drop}
use mmap_chunker_core.Cli.Logical.Rounds.{target_lt}

-- A row stands for a part of its file that ends on a record.
abbrev pub IsRow : List ℕ → List (List ℕ) → SourceRange → Type 0
IsRow p files r =
    (r.start < r.end_exclusive)
    × (r.length ≡ r.end_exclusive - r.start)
    × (r.end_exclusive ≤ length (file_at files r.source_index))
    × IsCut p (file_at files r.source_index) r.end_exclusive

module _ (p : List ℕ) where
  -- An offset that cuts no record of any file.
  abbrev Aligned : ℕ → List (List ℕ) → ℕ → Type 0
  Aligned base [] c = Unit {0}
  Aligned base (xs ∷ files) c =
      (base < c → c < base + length xs → IsCut p xs (c - base)) × Aligned (base + length xs) files c

  Aligned-before : (files : List (List ℕ)) (base c : ℕ) → c ≤ base → Aligned base files c
  Aligned-before [] base c h = tt
  Aligned-before (xs ∷ files) base c h =
      (λ lt inside. absurd (omega arith), Aligned-before files (base + length xs) c (omega arith))

  Aligned-after :
      (files : List (List ℕ)) (base c : ℕ) → base + total files ≤ c → Aligned base files c
  Aligned-after [] base c h = tt
  Aligned-after (xs ∷ files) base c h =
      let size = length-append xs (concat files) in
      (λ lt inside. absurd (omega arith), Aligned-after files (base + length xs) c (omega arith))

  logical_cut-Aligned :
      (files : List (List ℕ)) (base t c : ℕ)
      → t < total files
      → base + logical_cut p files t ≡ c
      → Aligned base files c
  unfolding logical_cut
  logical_cut-Aligned [] base t c h e = tt
  logical_cut-Aligned (xs ∷ files) base t c h e =
      let size = length-append xs (concat files) in
      elim (Bool-cases (t == 0)) [
        | inl first ↦ Aligned-before (xs ∷ files) base c (ground arith)
        | inr later ↦ elim (Bool-cases (ltb t (length xs))) [
          | inl inside ↦
              let bounds = snap_cut_bounds p xs t (ground arith) in
              let at : c - base ≡ snap_cut p xs t = ground arith in
              (
                λ lt below. rw at (snap_cut-ends_at p xs t (ground arith)),
                Aligned-before files (base + length xs) c (ground arith),
              )
          | inr past ↦ (
            λ lt below. absurd (ground arith),
            logical_cut-Aligned files (base + length xs) (t - length xs) c (ground arith)
                (ground arith),
          )
        ]
      ]

  inner_cuts-Aligned :
      (files : List (List ℕ)) (n left i last : ℕ)
      → left ≤ n - i
      → n ≤ total files
      → All (Aligned 0 files) (inner_cuts (logical_cut p files) (total files) n left i last)
  unfolding inner_cuts
  inner_cuts-Aligned files n zero i last h k = tt
  inner_cuts-Aligned files n (suc left) i last h k =
      let t = total files * i / n in
      let cut = logical_cut p files t in
      let below = target_lt (total files) n i (omega arith) k in
      let rest : (last' : ℕ)
          → All (Aligned 0 files)
              (inner_cuts (logical_cut p files) (total files) n left (i + 1) last') =
        λ last'. inner_cuts-Aligned files n left (i + 1) last' (omega arith) k in
      elim (Bool-cases (leb t last)) [
        | inl past ↦ rw past (rest last)
        | inr ahead ↦ elim (Bool-cases (cut == total files)) [
          | inl end ↦ rw (ahead, end) tt
          | inr inside ↦
              rw (ahead, inside) (logical_cut-Aligned files 0 t cut below (omega arith), rest cut)
        ]
      ]

  dataset_ranges-Aligned :
      (files : List (List ℕ)) (parts : ℕ)
      → All (λ (r : Range). Aligned 0 files r.1) (dataset_ranges p files parts)
  unfolding dataset_ranges
  dataset_ranges-Aligned files parts =
      let n = min parts (total files) in
      elim (Bool-cases (parts == 0)) [
        | inl e ↦ rw e tt
        | inr e ↦ rw e (
            ranges_from-ends (Aligned 0 files) (total files) 0 _
              (Aligned-after files 0 (total files) (omega arith))
              (inner_cuts-Aligned files n (n - 1) 1 0 (omega arith) (omega arith)))
      ]

  split-rows :
      (all : List (List ℕ)) (start end : ℕ) (files : List (List ℕ)) (i base : ℕ)
      → drop i all ≡ files
      → Aligned base files end
      → All (IsRow p all) (split start end i base files)
  unfolding split
  split-rows all start end [] i base e h = tt
  split-rows all start end (xs ∷ files) i base e (here, h) =
      let b = base + length xs in
      let rest =
        split-rows all start end files (i + 1) b (sym (drop-drop 1 i all) ∙ ap (drop 1) e) h in
      let at : file_at all i ≡ xs = file_at-drop all i xs files e in
      elim (Bool-cases (leb (min end b) (max start base))) [
        | inl outside ↦ rw outside rest
        | inr inside ↦
            rw (inside, at)
              (
                (
                  ground arith,
                  ground arith,
                  omega arith,
                  elim (Bool-cases (ltb end b)) [
                    | inl within ↦
                        let to : min end b ≡ end = ground arith in
                        rw to (here (ground arith) (ground arith))
                    | inr whole ↦ inl (ground arith)
                  ],
                ),
                rest,
              )
      ]

  pub assignments-rows :
      (files : List (List ℕ)) (rs : List Range) (worker : ℕ)
      → All (λ (r : Range). Aligned 0 files r.1) rs
      → All (λ (a : WorkerAssignment). All (IsRow p files) a.ranges) (assignments files worker rs)
  unfolding assignments
  assignments-rows files [] worker h = tt
  assignments-rows files ((start, end) ∷ rs) worker (here, h) =
      (split-rows files start end files 0 0 refl here, assignments-rows files rs (worker + 1) h)

  pub dataset-rows :
      (files : List (List ℕ)) (parts : ℕ)
      → All
          (λ (a : WorkerAssignment). All (IsRow p files) a.ranges)
          (assignments files 0 (dataset_ranges p files parts))
  dataset-rows files parts =
      assignments-rows files (dataset_ranges p files parts) 0 (dataset_ranges-Aligned files parts)
