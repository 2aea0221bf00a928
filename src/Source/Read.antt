-- ===== src/Source/Read.antt =====
-- The loop that fills a buffer, and `find_pattern_from`. A buffer is the bytes that have been filled in,
-- the only ones that the code looks at; `buffer_addr` is where it stands.
use mmap_chunker_core.Base.{
  ℕ, zero, suc, ◌+◌, ◌-◌, min, max, List, [], ◌++◌, length, Option, none, some, Run, done,
  out_of_fuel, ◌>>=◌, Result, ErrorKind, ok, err, Io, ◌==◌, ltb, leb, ◌||◌, if◌then◌else◌,
  add_usize, saturating_add, saturating_mul,
}
use mmap_chunker_core.Scanner.Pattern.{find_pattern_in_slice}
use mmap_chunker_core.Source.{ByteSource}

-- `?` behind a run that has returned.
abbrev pub and_ok {ℓ κ} :
    {A : Type ℓ} {B : Type κ}
    → Run (Result ErrorKind A)
    → (A → Run (Result ErrorKind B))
    → Run (Result ErrorKind B)
and_ok m k = m >>= λ r. elim r [ err e ↦ done (err e) | ok a ↦ k a ]

module _ (source : ByteSource) where
  -- `while filled < want { … }`, on fuel, with the bytes filled in so far.
  unfoldable pub fill : ℕ → ℕ → ℕ → List ℕ → Run (Io (List ℕ))
  fill zero offset want filled = out_of_fuel
  fill (suc fuel) offset want filled =
      let body : Run (Io (List ℕ)) =
        elim (source.read_at (offset + length filled) (want - length filled)) [
          | err e ↦ done (err e)
          | ok bytes ↦
              let rest = fill fuel offset want (filled ++ bytes) in
              if length bytes == 0 then done (ok filled) else rest
        ] in
      if ltb (length filled) want then body else done (ok filled)

  module _ (buffer_addr max_probe : ℕ) (delimiter : List ℕ) where
    -- The `loop`, on fuel.
    unfoldable pub probe_loop : ℕ → ℕ → ℕ → Run (Io (Option ℕ))
    probe_loop zero offset probe_len = out_of_fuel
    probe_loop (suc fuel) offset probe_len =
        let want = min probe_len (source.len - offset) in
        let next = λ (read : ℕ).
          (let overlap = length delimiter - 1 in
            let advance = max (read - overlap) 1 in
            let grown = min (saturating_mul probe_len 2) max_probe in
            probe_loop fuel (saturating_add offset advance)
              (if ltb probe_len max_probe then grown else probe_len)) in
        let probed = λ (buffer : List ℕ).
          (let read = length buffer in
            let searched = (do
              found ←
                  find_pattern_in_slice (record { addr = buffer_addr; bytes = buffer }) delimiter
              elim found [
                | some position ↦ done (ok (some (add_usize offset position)))
                | none ↦
                    if leb source.len (saturating_add offset read)
                    then done (ok none)
                    else next read
              ]) in
            if read == 0 then done (ok none) else searched) in
        let round = and_ok (fill (suc want) offset want []) probed in
        if leb source.len offset then done (ok none) else round

  -- `adaptive_initial_probe_bytes` is 4096.
  unfoldable pub find_pattern_from : ℕ → ℕ → ℕ → List ℕ → Run (Io (Option ℕ))
  find_pattern_from buffer_addr buffer_len from delimiter =
      let probe_len = min (max (length delimiter) 4096) buffer_len in
      if buffer_len == 0 || length delimiter == 0
      then done (ok none)
      else probe_loop buffer_addr buffer_len delimiter (suc source.len) from probe_len
