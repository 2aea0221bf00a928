-- ===== src/Cli/Sourced/Correct.antt =====
-- What the plan over sources that are read piece by piece promises.
use mmap_chunker_core.Base.{
  ℕ, suc, ◌+◌, ◌≤◌, ◌≡◌, refl, ap, arith, max, List, [], ◌∷◌, length, length-append, none,
  Bool-cases, inl, inr, ◌⊎◌, ◌==◌, Io, done, ok, err, isize_max, usize_max, All,
}
use mmap_chunker_core.Slice.{Slice, IsSlice}
use mmap_chunker_core.Ranges.{concat}
use mmap_chunker_core.Scanner.Chunks.Laws.{IsDelimiter}
use mmap_chunker_core.Source.{ByteSource, Serves}
use mmap_chunker_core.Source.Planner.{PlannerOptions}
use mmap_chunker_core.Source.Reads.{Serves-MayServe}
use mmap_chunker_core.Cli.{Message, failed_to_open}
use mmap_chunker_core.Cli.Logical.{last, plan_over, plan_logical_partitions}
use mmap_chunker_core.Cli.Logical.Reference.{total, sums, dataset_ranges, assignments}
use mmap_chunker_core.Cli.Logical.Rounds.{Ends}
use mmap_chunker_core.Cli.Logical.Mapped.{contents}
use mmap_chunker_core.Cli.Logical.Assembly.{plan_over-assignments}
use mmap_chunker_core.Cli.Logical.Correct.{plan_logical_partitions-assignments}
use mmap_chunker_core.Cli.Sourced.{
  open_sourced, project_sourced_target, stat_prefixes, plan_logical_partitions_sourced,
}
use mmap_chunker_core.Cli.Sourced.Answers.{Both, Both-get_elem?, At, Answers, Reported}
use mmap_chunker_core.Cli.Sourced.Projection.{IsOnward, project_sourced_target-Projects}

module _ {FilePath : Type 0} (open_windowed : FilePath → ℕ → Io ByteSource)
    (open_pread : FilePath → Io ByteSource) (options : PlannerOptions)
    (stat : FilePath → Io ℕ) where
  abbrev FailsWith : List FilePath → List (List ℕ) → Message → Type 0
  FailsWith = Reported open_windowed open_pread options stat

  abbrev Answered : FilePath → List ℕ → Type 0
  Answered = Answers open_windowed open_pread options stat

  -- A report about later paths is one about all.
  Reported_later :
      (path : FilePath) (xs : List ℕ) (paths : List FilePath) (files : List (List ℕ)) (e : Message)
      → FailsWith paths files e
      → FailsWith (path ∷ paths) (xs ∷ files) e
  Reported_later path xs paths files e (Reported.unsized i p ys k at h) =
      Reported.unsized (suc i) p ys k at h
  Reported_later path xs paths files e (Reported.unopened i p ys k at h) =
      Reported.unopened (suc i) p ys k at h
  Reported_later path xs paths files e (Reported.unread i p ys source k at h f) =
      Reported.unread (suc i) p ys source k at h f
  Reported_later path xs paths files e (Reported.changed i p ys source at h f) =
      Reported.changed (suc i) p ys source at h f

  stat_prefixes-sums :
      (paths : List FilePath) (files : List (List ℕ)) (base : ℕ)
      → Both Answered paths files
      → base + total files ≤ usize_max
      → ((pushed : List ℕ) × (stat_prefixes stat base paths ≡ done (ok pushed))
          × (base ∷ pushed ≡ sums base files)
          × (last base pushed ≡ base + total files))
        ⊎ ((e : Message) × (stat_prefixes stat base paths ≡ done (err e)) × FailsWith paths files e)
  unfolding stat_prefixes
  stat_prefixes-sums [] [] base both small = inl ([], refl, refl, omega arith)
  stat_prefixes-sums [] (xs ∷ files) base both small = absurd both
  stat_prefixes-sums (path ∷ paths) [] base both small = absurd both
  stat_prefixes-sums (path ∷ paths) (xs ∷ files) base (answers, both) small =
      let size = length-append xs (concat files) in
      elim answers.sized [
        | inr (k, failed) ↦ inr (
          failed_to_open k,
          ground (arith, failed),
          Reported.unsized 0 path xs k (refl, refl) failed,
        )
        | inl sized ↦ elim (stat_prefixes-sums paths files (base + length xs) both (omega arith)) [
          | inl (pushed, run, same, end) ↦ inl (
            (base + length xs) ∷ pushed,
            ground (arith, sized, run),
            ap (λ (ps : List ℕ). base ∷ ps) same,
            omega arith,
          )
          | inr (e, failed, reported) ↦
              inr (e, ground (arith, sized, failed), Reported_later path xs paths files e reported)
        ]
      ]

  length-Both :
      (paths : List FilePath) (files : List (List ℕ))
      → Both Answered paths files
      → length paths ≡ length files
  length-Both [] [] both = refl
  length-Both [] (xs ∷ files) both = absurd both
  length-Both (path ∷ paths) [] both = absurd both
  length-Both (path ∷ paths) (xs ∷ files) (h, both) = omega (arith, length-Both paths files both)

  module _ (paths : List FilePath) (files : List (List ℕ)) (p : List ℕ) (num : ℕ)
      (del : IsDelimiter p) (small : total files ≤ isize_max)
      (both : Both Answered paths files) where
    -- The plan over sources, for a delimiter and files that are addressable together, whatever the system
    -- answers about the paths: it ends without a panic, and it is the plan that the bytes of the files call
    -- for, or the message says what the system has reported about one of the paths (its size or its source
    -- was not given, a read inside its file failed, or its source had another length than its file).
    pub plan_logical_partitions_sourced-Ends :
        Ends
          (FailsWith paths files)
          (plan_logical_partitions_sourced open_windowed open_pread options stat paths num p)
          (assignments files 0 (dataset_ranges p files num))
    unfolding plan_logical_partitions_sourced
    plan_logical_partitions_sourced-Ends =
        let buffer_len = max (max options.scan_buffer_bytes (length p)) 1 in
        let project = project_sourced_target open_windowed open_pread options buffer_len paths p in
        elim (stat_prefixes-sums paths files 0 both (omega arith)) [
          | inl (pushed, run, same, end) ↦ rw (length-Both paths files both) (
              plan_over-assignments files (omega arith) project
                (IsOnward open_windowed open_pread options stat paths files) (FailsWith paths files)
                p
                (project_sourced_target-Projects open_windowed open_pread options stat paths files p
                  buffer_len small del (omega arith) both)
                none tt (stat_prefixes stat 0 paths) pushed num run same (omega arith))
          | inr (e, failed, reported) ↦ elim (Bool-cases (num == 0)) [
            | inl unasked ↦ inl (unfold plan_over dataset_ranges assignments in ground arith)
            | inr asked ↦ inr (e, unfold plan_over in ground arith, reported)
          ]
        ]

  -- An answer without an error: the size, and an honest source of the file.
  abbrev pub Honest : FilePath → List ℕ → Type 0
  Honest path xs =
      (stat path ≡ ok (length xs))
      × ((source : ByteSource) × (open_sourced open_windowed open_pread options path
            ≡ done (ok source))
          × Serves source xs)

  Honest-Answers :
      (paths : List FilePath) (files : List (List ℕ))
      → Both Honest paths files
      → Both Answered paths files
  Honest-Answers [] [] both = tt
  Honest-Answers [] (xs ∷ files) both = absurd both
  Honest-Answers (path ∷ paths) [] both = absurd both
  Honest-Answers (path ∷ paths) (xs ∷ files) ((sized, (source, opened, serves)), both) = (
    record { sized = inl sized; opened = inl (source, opened, Serves-MayServe source xs serves) },
    Honest-Answers paths files both,
  )

  module _ (paths : List FilePath) (files : List (List ℕ)) (both : Both Honest paths files) where
    answer_for : (i : ℕ) (path : FilePath) (xs : List ℕ) → At paths files i path xs → Honest path xs
    answer_for i path xs (at, file) =
        let (other, found, h) = Both-get_elem? Honest paths files i xs both file in
        let same : other ≡ path = cc in rw (← same) h

    reports_nothing : (e : Message) → ¬ FailsWith paths files e
    reports_nothing e (Reported.unsized i path xs k at failed) =
        let (sized, (source, opened, serves)) = answer_for i path xs at in absurd cc
    reports_nothing e (Reported.unopened i path xs k at failed) =
        let (sized, (source, opened, serves)) = answer_for i path xs at in absurd cc
    reports_nothing e
          (Reported.unread i path xs other k at other_opened (o, n, pos, inside, failed)) =
        let (sized, (source, opened, serves)) = answer_for i path xs at in
        let same : source ≡ other = cc in
        let (j, some_bytes, small, fits, read) = serves.reads o n pos inside in
        absurd (ground (arith, same))
    reports_nothing e (Reported.changed i path xs other at other_opened differs) =
        let (sized, (source, opened, serves)) = answer_for i path xs at in
        let same : source ≡ other = cc in absurd (differs (rw (← same) serves.size))

  -- `partition-files` plans the same over every backend: where every path has the size of a mapped file,
  -- and opens as an honest source of its bytes, the plan over the sources is the plan over the mapped
  -- files, for every request, every delimiter and every size of the buffer.
  pub plan_logical_partitions_sourced-plan_logical_partitions :
      (paths : List FilePath) (sources : List Slice) (p : List ℕ) (num : ℕ)
      → Both Honest paths (contents sources)
      → IsDelimiter p
      → All IsSlice sources
      → total (contents sources) ≤ isize_max
      → plan_logical_partitions_sourced open_windowed open_pread options stat paths num p
        ≡ plan_logical_partitions sources num p
  plan_logical_partitions_sourced-plan_logical_partitions paths sources p num both del mapped
        small =
      let files = contents sources in
      rw (plan_logical_partitions-assignments sources p num del mapped (omega arith))
        (elim (plan_logical_partitions_sourced-Ends paths files p num del small
          (Honest-Answers paths files both)) [
            | inl e ↦ e
            | inr (e, failed, reported) ↦ absurd (reports_nothing paths files both e reported)
          ])
