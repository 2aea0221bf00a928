-- ===== src/Cli/Logical/Correct.antt =====
-- What the plan over several files promises.
use mmap_chunker_core.Base.{
  ℕ, zero, suc, ◌+◌, ◌-◌, ◌*◌, ◌/◌, ◌≤◌, ◌<◌, ◌≡◌, refl, ap, ◌∙◌, arith, min, max, List, [], ◌∷◌,
  length, take, drop, take_congr, drop_congr, Bool-cases, inl, inr, ◌==◌, if◌then◌else◌, done, ok,
  All, usize_max, get_elem?, some,
}
use mmap_chunker_core.Slice.{Slice, len, IsSlice}
use mmap_chunker_core.Ranges.{Range, Covers, part, parts, concat}
use mmap_chunker_core.Ranges.Laws.{concat-parts}
use mmap_chunker_core.Scanner.Chunks.Laws.{IsDelimiter}
use mmap_chunker_core.Scanner.Partition.{ranges_from}
use mmap_chunker_core.Scanner.Partition.Reference.{Ascends}
use mmap_chunker_core.Scanner.Partition.Assembly.{ranges_from-Covers, length-ranges_from-le}
use mmap_chunker_core.Cli.Boundary.{BoundarySearchState, initial}
use mmap_chunker_core.Cli.Logical.{
  WorkerAssignment, map, project_logical_target, push_prefixes, plan_logical_partitions,
}
use mmap_chunker_core.Cli.Logical.Reference.{
  total, logical_cut, inner_cuts, dataset_ranges, split, assignments, row_bytes, worker_bytes,
}
use mmap_chunker_core.Cli.Logical.Intervals.{split-bytes}
use mmap_chunker_core.Cli.Logical.Projection.{logical_cut_bounds}
use mmap_chunker_core.Cli.Logical.Mapped.{contents, IsOnward, project_logical_target-Projects}
use mmap_chunker_core.Cli.Logical.Assembly.{
  Rises, inner_cuts-Rises, inner_cuts_none, push_prefixes-sums, plan_over-assignments,
}
use mmap_chunker_core.Cli.Logical.Rows.{IsRow, dataset-rows}

-- The workers are numbered from `worker` on.
abbrev pub Numbered : ℕ → List WorkerAssignment → Type 0
Numbered worker [] = Unit {0}
Numbered worker (a ∷ workers) = (a.worker_index ≡ worker) × Numbered (worker + 1) workers

-- A plan for at most `num` workers over the files: the workers are numbered in order, what they are given
-- is in order all bytes of all files, and nothing for a request of 0, and every row is a part of its file
-- that ends on a record of that file.
pub record IsDatasetPlan (p : List ℕ) (files : List (List ℕ)) (num : ℕ)
    (workers : List WorkerAssignment) : Type 0 where
  pub numbered : Numbered 0 workers
  pub at_most : length workers ≤ num
  pub complete : concat (map (worker_bytes files) workers) ≡ (if num == 0 then [] else concat files)
  pub rows : All (λ (a : WorkerAssignment). All (IsRow p files) a.ranges) workers

Rises-Ascends : (size start : ℕ) (bs : List ℕ) → Rises size start bs → Ascends size start bs
Rises-Ascends size start [] h = tt
Rises-Ascends size start (b ∷ bs) (lt, inside, h) = (lt, omega arith, Rises-Ascends size b bs h)

length-inner_cuts-le :
    (cut : ℕ → ℕ) (size n left i last : ℕ) → length (inner_cuts cut size n left i last) ≤ left
unfolding inner_cuts
length-inner_cuts-le cut size n zero i last = omega arith
length-inner_cuts-le cut size n (suc left) i last = ground (
  arith,
  length-inner_cuts-le cut size n left (i + 1) last,
  length-inner_cuts-le cut size n left (i + 1) (cut (size * i / n)),
)

length-assignments :
    (files : List (List ℕ)) (worker : ℕ) (rs : List Range)
    → length (assignments files worker rs) ≡ length rs
unfolding assignments
length-assignments files worker [] = refl
length-assignments files worker (r ∷ rs) = omega (arith, length-assignments files (worker + 1) rs)

assignments-Numbered :
    (files : List (List ℕ)) (worker : ℕ) (rs : List Range)
    → Numbered worker (assignments files worker rs)
unfolding assignments
assignments-Numbered files worker [] = tt
assignments-Numbered files worker (r ∷ rs) = (refl, assignments-Numbered files (worker + 1) rs)

-- What the workers are given are the parts of the dataset.
worker_bytes-parts :
    (files : List (List ℕ)) (rs : List Range) (worker : ℕ)
    → map (worker_bytes files) (assignments files worker rs) ≡ parts (concat files) rs
unfolding assignments
worker_bytes-parts files [] worker = refl
worker_bytes-parts files ((start, end) ∷ rs) worker =
    let rest = worker_bytes-parts files rs (worker + 1) in
    let here : concat (map (row_bytes files) (split start end 0 0 files))
        ≡ part (concat files) (start, end) =
      split-bytes start end files files 0 0 refl
      ∙ (drop_take (concat files) (start - 0) start (end - max start 0) (end - start) (omega arith)
          (omega arith)) in
    rw (here, rest) refl
  where
    drop_take :
        (xs : List ℕ) (a b n m : ℕ) → a ≡ b → n ≡ m → take n (drop a xs) ≡ take m (drop b xs)
    drop_take xs a b n m e f = rw (drop_congr xs a b e) (take_congr (drop b xs) n m f)

module _ (p : List ℕ) (files : List (List ℕ)) (num : ℕ) where
  dataset_ranges-Covers : 0 < num → Covers 0 (total files) (dataset_ranges p files num)
  unfolding dataset_ranges ranges_from
  dataset_ranges-Covers pos =
      let n = min num (total files) in
      elim (Bool-cases (total files == 0)) [
        | inl empty ↦ ground (
          arith,
          inner_cuts_none (logical_cut p files) (total files) n (n - 1) 1 0 (ground arith),
        )
        | inr some_bytes ↦
            let rises =
              inner_cuts-Rises (logical_cut p files) (total files) n (logical_cut_bounds p files)
                (omega arith) (n - 1) 1 0 (ground arith) (ground arith) in
            ground (
              arith,
              ranges_from-Covers (total files) 0
                  (inner_cuts (logical_cut p files) (total files) n (n - 1) 1 0) (omega arith)
                  (Rises-Ascends (total files) 0 _ rises),
            )
      ]

  dataset_ranges_at_most : length (dataset_ranges p files num) ≤ num
  unfolding dataset_ranges
  dataset_ranges_at_most =
      let n = min num (total files) in
      ground (
        arith,
        length-inner_cuts-le (logical_cut p files) (total files) n (n - 1) 1 0,
        length-ranges_from-le (total files) 0
            (inner_cuts (logical_cut p files) (total files) n (n - 1) 1 0),
      )

  dataset_ranges_none : num ≡ 0 → dataset_ranges p files num ≡ []
  unfolding dataset_ranges
  dataset_ranges_none e = ground arith

  pub dataset-IsDatasetPlan :
      IsDatasetPlan p files num (assignments files 0 (dataset_ranges p files num))
  dataset-IsDatasetPlan =
      let rs = dataset_ranges p files num in
      record {
        numbered = assignments-Numbered files 0 rs;
        at_most = omega (arith, length-assignments files 0 rs, dataset_ranges_at_most);
        complete = worker_bytes-concat;
        rows = dataset-rows p files num;
      }
    where
      worker_bytes-concat :
          concat (map (worker_bytes files) (assignments files 0 (dataset_ranges p files num)))
          ≡ (if num == 0 then [] else concat files)
      worker_bytes-concat =
          rw (worker_bytes-parts files (dataset_ranges p files num) 0)
            (elim (Bool-cases (num == 0)) [
              | inl unasked ↦ rw (unasked, dataset_ranges_none (ground arith)) refl
              | inr asked ↦ rw asked (
                  concat-parts (concat files) 0 (dataset_ranges p files num)
                    (dataset_ranges-Covers (ground arith)))
            ])

map-contents : (sources : List Slice) → map len sources ≡ map length (contents sources)
map-contents [] = refl
map-contents (s ∷ sources) = ap (λ sizes. len s ∷ sizes) (map-contents sources)

length-contents : (sources : List Slice) → length (contents sources) ≡ length sources
length-contents [] = refl
length-contents (s ∷ sources) = omega (arith, length-contents sources)

initial-IsOnward :
    (p : List ℕ) (sources : List Slice) → IsOnward p sources 0 (map (λ source. initial) sources)
initial-IsOnward p sources = record {
  one_each = length-initial sources;
  behind = λ k b state t pre found ahead.
      let same = get_elem?-initial sources k state found in ground (arith, same);
}
  where
    length-initial :
        (sources : List Slice) → length (map (λ source. initial) sources) ≡ length sources
    length-initial [] = refl
    length-initial (s ∷ sources) = omega (arith, length-initial sources)

    get_elem?-initial :
        (sources : List Slice) (k : ℕ) (state : BoundarySearchState)
        → get_elem? (map (λ source. initial) sources) k ≡ some state
        → initial ≡ state
    get_elem?-initial [] k state h = cc
    get_elem?-initial (s ∷ sources) zero state h = cc
    get_elem?-initial (s ∷ sources) (suc k) state h = get_elem?-initial sources k state h

module _ (sources : List Slice) (p : List ℕ) (num : ℕ) (del : IsDelimiter p)
    (mapped : All IsSlice sources) (small : total (contents sources) ≤ usize_max) where
  -- The plan over mapped files ends with a plan.
  pub plan_logical_partitions-assignments :
      plan_logical_partitions sources num p
      ≡ done (ok (assignments (contents sources) 0 (dataset_ranges p (contents sources) num)))
  unfolding plan_logical_partitions
  plan_logical_partitions-assignments =
      let files = contents sources in
      let (pushed, run, same, end) = push_prefixes-sums files 0 (omega arith) in
      let planned =
        plan_over-assignments files small (project_logical_target sources p) (IsOnward p sources)
          (λ e. ⊥) p (project_logical_target-Projects p sources del mapped small)
          (map (λ source. initial) sources) (initial-IsOnward p sources)
          (push_prefixes 0 (map length files)) pushed num run same (omega arith) in
      rw (map-contents sources, ← length-contents sources)
        (elim planned [ inl e ↦ e | inr (e, failed, bad) ↦ absurd bad ])

  -- The plan over mapped files, for a delimiter and files that are addressable together: it returns
  -- without a panic and without an error; the workers are numbered in order, there are at most as many as
  -- requested, they are given in order all bytes of all files (none for a request of 0), and every row is
  -- a part of its own file that is not empty and ends behind a delimiter of that file, or with that file.
  pub plan_logical_partitions-IsDatasetPlan :
      (workers : List WorkerAssignment) × (plan_logical_partitions sources num p
        ≡ done (ok workers))
      × IsDatasetPlan p (contents sources) num workers
  plan_logical_partitions-IsDatasetPlan =
      (_, plan_logical_partitions-assignments, dataset-IsDatasetPlan p (contents sources) num)
