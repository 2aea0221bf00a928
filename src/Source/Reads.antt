-- ===== src/Source/Reads.antt =====
-- Where no read fails: the search over reads finds what a search of the bytes finds.
use mmap_chunker_core.Base.{
  ℕ, ◌≤◌, ◌≡◌, arith, List, length, inl, inr, Run, done, ok, Io, isize_max, All,
}
use mmap_chunker_core.Bits.Zeros.{IsByte}
use mmap_chunker_core.Search.From.{search_from}
use mmap_chunker_core.Scanner.Chunks.Laws.{IsDelimiter}
use mmap_chunker_core.Source.{ByteSource, Serves}
use mmap_chunker_core.Source.Read.{find_pattern_from}
use mmap_chunker_core.Source.Failures.{MayServe, Settles, find_pattern_from-Settles}

module _ (source : ByteSource) (xs : List ℕ) (serves : Serves source xs) where
  -- An honest source is one whose reads do not fail.
  pub Serves-MayServe : MayServe source xs
  Serves-MayServe = record {
    size = serves.size;
    reads = λ offset n pos inside. inl (serves.reads offset n pos inside);
  }

  pub Serves-Settles :
      {A : Type 0} (run : Run (Io A)) (a : A) → Settles source xs run a → run ≡ done (ok a)
  Serves-Settles run a (inl e) = e
  Serves-Settles run a (inr (e, stopped, (offset, n, pos, inside, failed))) =
      let (k, some_bytes, small, fits, read) = serves.reads offset n pos inside in
      absurd (ground arith)

  module _ (p : List ℕ) (del : IsDelimiter p) (bytes : All IsByte xs)
      (small : length xs ≤ isize_max) (buffer_addr max_probe : ℕ) where
    -- `find_pattern_from` on an honest source, with a buffer that holds the pattern: it ends and returns
    -- the first offset from `from` on at which the whole pattern stands, however short the reads are and
    -- wherever a read ends inside the pattern.
    pub find_pattern_from_lem :
        (from : ℕ)
        → length p ≤ max_probe
        → max_probe ≤ isize_max
        → from ≤ length xs
        → find_pattern_from source buffer_addr max_probe from p ≡ done (ok (search_from p xs from))
    find_pattern_from_lem from holds addressable inside =
        Serves-Settles (find_pattern_from source buffer_addr max_probe from p)
          (search_from p xs from)
          (find_pattern_from-Settles source xs Serves-MayServe p del bytes small buffer_addr
            max_probe from holds addressable inside)
