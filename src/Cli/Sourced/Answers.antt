-- ===== src/Cli/Sourced/Answers.antt =====
-- What the system may answer about the paths of a dataset, and what it may report.
use mmap_chunker_core.Base.{
  ℕ, zero, suc, ◌≤◌, ◌≡◌, ◌≢◌, refl, List, [], ◌∷◌, length, get_elem?, some, ◌⊎◌, Io, done, ok, err,
  ErrorKind, usize_max,
}
use mmap_chunker_core.Source.{ByteSource}
use mmap_chunker_core.Source.Planner.{PlannerOptions}
use mmap_chunker_core.Source.Failures.{MayServe, Fails}
use mmap_chunker_core.Cli.{Message, failed_to_open, failed_to_read, source_length_changed}
use mmap_chunker_core.Cli.Sourced.{open_sourced}

-- A relation of paths and the bytes of their files, one to one.
abbrev pub Both :
    {FilePath : Type 0} → (FilePath → List ℕ → Type 0) → List FilePath → List (List ℕ) → Type 0
Both P [] [] = Unit
Both P [] (xs ∷ files) = ⊥
Both P (path ∷ paths) [] = ⊥
Both P (path ∷ paths) (xs ∷ files) = P path xs × Both P paths files

pub Both-get_elem? :
    {FilePath : Type 0} (P : FilePath → List ℕ → Type 0) (paths : List FilePath)
    (files : List (List ℕ)) (k : ℕ) (xs : List ℕ)
    → Both P paths files
    → get_elem? files k ≡ some xs
    → (path : FilePath) × (get_elem? paths k ≡ some path) × P path xs
Both-get_elem? P [] [] k xs h e = absurd cc
Both-get_elem? P [] (ys ∷ files) k xs h e = absurd h
Both-get_elem? P (path ∷ paths) [] k xs h e = absurd h
Both-get_elem? P (path ∷ paths) (ys ∷ files) zero xs h e =
    let same : ys ≡ xs = cc in (path, refl, rw (← same) h.0)
Both-get_elem? P (path ∷ paths) (ys ∷ files) (suc k) xs h e =
    Both-get_elem? P paths files k xs h.1 e

-- The `i`-th path, and the bytes of its file.
abbrev pub At : {FilePath : Type 0} → List FilePath → List (List ℕ) → ℕ → FilePath → List ℕ → Type 0
At paths files i path xs = (get_elem? paths i ≡ some path) × (get_elem? files i ≡ some xs)

module _ {FilePath : Type 0} (open_windowed : FilePath → ℕ → Io ByteSource)
    (open_pread : FilePath → Io ByteSource) (options : PlannerOptions)
    (stat : FilePath → Io ℕ) where
  -- What the system may answer about a path of a file that held `xs` when it was asked for its size: the
  -- size or an error, and a source of `xs` whose reads may fail, one of another length, or an error.
  pub record Answers (path : FilePath) (xs : List ℕ) : Type 0 where
    pub sized : (stat path ≡ ok (length xs)) ⊎ ((k : ErrorKind) × (stat path ≡ err k))
    pub opened :
        ((source : ByteSource) × (open_sourced open_windowed open_pread options path
            ≡ done (ok source))
          × MayServe source xs)
        ⊎ (((source : ByteSource) × (open_sourced open_windowed open_pread options path
                ≡ done (ok source))
              × (source.len ≤ usize_max)
              × (source.len ≢ length xs))
            ⊎ ((k : ErrorKind) × (open_sourced open_windowed open_pread options path
                  ≡ done (err (failed_to_open k)))))

  module _ (paths : List FilePath) (files : List (List ℕ)) where
    -- What may go wrong, and the message that says so: the size or the source of a path is not given, a
    -- read inside its file fails, or its source has another length than its file.
    pub data Reported : Message → Type 0 where
      unsized :
          (i : ℕ) (path : FilePath) (xs : List ℕ) (k : ErrorKind)
          → At paths files i path xs
          → stat path ≡ err k
          → Reported (failed_to_open k)
      unopened :
          (i : ℕ) (path : FilePath) (xs : List ℕ) (k : ErrorKind)
          → At paths files i path xs
          → open_sourced open_windowed open_pread options path ≡ done (err (failed_to_open k))
          → Reported (failed_to_open k)
      unread :
          (i : ℕ) (path : FilePath) (xs : List ℕ) (source : ByteSource) (k : ErrorKind)
          → At paths files i path xs
          → open_sourced open_windowed open_pread options path ≡ done (ok source)
          → Fails source xs k
          → Reported (failed_to_read k)
      changed :
          (i : ℕ) (path : FilePath) (xs : List ℕ) (source : ByteSource)
          → At paths files i path xs
          → open_sourced open_windowed open_pread options path ≡ done (ok source)
          → source.len ≢ length xs
          → Reported source_length_changed
