-- ===== src/Cli/Logical/Reference.antt =====
-- What the plan over several files is to be, as pure functions of their bytes.
use mmap_chunker_core.Base.{
  ℕ, zero, suc, ◌+◌, ◌-◌, ◌*◌, ◌/◌, min, max, List, [], ◌∷◌, length, ltb, leb, ◌==◌, if◌then◌else◌,
}
use mmap_chunker_core.Ranges.{Range, part, parts, concat}
use mmap_chunker_core.Scanner.Partition.{ranges_from}
use mmap_chunker_core.Scanner.Partition.Reference.{snap_cut}
use mmap_chunker_core.Cli.Logical.{SourceRange, WorkerAssignment, map}

-- The bytes of all files, in order, and the offsets at which the files begin and end in them.
abbrev pub total : List (List ℕ) → ℕ
total files = length (concat files)

abbrev pub sums : ℕ → List (List ℕ) → List ℕ
sums base [] = base ∷ []
sums base (xs ∷ files) = base ∷ sums (base + length xs) files

-- The cut that a target calls for: the target itself where a file begins, else the cut in the file in
-- which it lies.
unfoldable pub logical_cut : List ℕ → List (List ℕ) → ℕ → ℕ
logical_cut p [] t = t
logical_cut p (xs ∷ files) t =
    let later = length xs + logical_cut p files (t - length xs) in
    if t == 0 then 0 else if ltb t (length xs) then snap_cut p xs t else later

-- The cuts of the targets from the `i`-th on, `left` of them, that lie past the last cut and before the
-- end.
module _ (cut : ℕ → ℕ) (size n : ℕ) where
  unfoldable pub inner_cuts : ℕ → ℕ → ℕ → List ℕ
  inner_cuts zero i last = []
  inner_cuts (suc left) i last =
      let t = size * i / n in
      let skip = inner_cuts left (i + 1) last in
      let push = cut t ∷ inner_cuts left (i + 1) (cut t) in
      if leb t last then skip else if cut t == size then [] else push

-- The ranges of the workers in the bytes of all files.
unfoldable pub dataset_ranges : List ℕ → List (List ℕ) → ℕ → List Range
dataset_ranges p files parts =
    let n = min parts (total files) in
    if parts == 0
    then []
    else ranges_from (total files) 0 (inner_cuts (logical_cut p files) (total files) n (n - 1) 1 0)

-- The part of each file that lies in an interval. `i` and `base` are the number of the first file and its
-- offset.
module _ (start end : ℕ) where
  unfoldable pub split : ℕ → ℕ → List (List ℕ) → List SourceRange
  split i base [] = []
  split i base (xs ∷ files) =
      let from = max start base in
      let to = min end (base + length xs) in
      let rest = split (i + 1) (base + length xs) files in
      let range : SourceRange = record {
        source_index = i;
        start = from - base;
        end_exclusive = to - base;
        length = to - from;
      } in
      if leb to from then rest else range ∷ rest

-- One worker for each range, numbered in order.
unfoldable pub assignments : List (List ℕ) → ℕ → List Range → List WorkerAssignment
assignments files worker [] = []
assignments files worker ((start, end) ∷ rs) =
    record { worker_index = worker; ranges = split start end 0 0 files }
    ∷ assignments files (worker + 1) rs

abbrev pub file_at : List (List ℕ) → ℕ → List ℕ
file_at [] i = []
file_at (xs ∷ files) zero = xs
file_at (xs ∷ files) (suc i) = file_at files i

-- The bytes that a row stands for, and those that a worker is given.
abbrev pub row_bytes : List (List ℕ) → SourceRange → List ℕ
row_bytes files r = part (file_at files r.source_index) (r.start, r.end_exclusive)

abbrev pub worker_bytes : List (List ℕ) → WorkerAssignment → List ℕ
worker_bytes files a = concat (map (row_bytes files) a.ranges)
