-- ===== src/Source/Sources.antt =====
-- The sources of src/source.rs that are not windowed: a whole map, and positional reads. What the system
-- answers to a positional read is an argument.
use mathlib.Core.Path.{subst}
use mmap_chunker_core.Base.{
  ℕ, zero, suc, ◌+◌, ◌-◌, ◌≤◌, ◌<◌, ◌≡◌, refl, sym, ap, arith, min, List, [], ◌∷◌, ◌⊎◌, drop_all,
  ◌++◌, length, take, drop, drop-drop, length-take, length-drop, none, some, Bool-cases, inl, inr,
  ok, err, Io, ◌==◌, leb, ltb, ◌||◌, if◌then◌else◌,
}
use mmap_chunker_core.Slice.{Slice, len, IsSlice}
use mmap_chunker_core.Source.{ByteSource, Serves}
use mmap_chunker_core.Search.Prefix.{take_add}

unfoldable pub mmap_read_at : Slice → ℕ → ℕ → Io (List ℕ)
mmap_read_at s offset out_len =
    let n = min out_len (len s - offset) in
    if out_len == 0 || leb (len s) offset then ok [] else ok (take n (drop offset s.bytes))

unfoldable pub mmap_source : Slice → ByteSource
unfolding mmap_read_at
mmap_source s = record { len = len s; read_at = mmap_read_at s; as_slice = some s }

module _ (read_exact_at : ℕ → ℕ → Io (List ℕ)) where
  -- `while total < n { … }`. Every round that goes on has read at least one byte, so `n` rounds are
  -- enough, and the loop has ended when none is left.
  unfoldable pub pread_loop : ℕ → ℕ → ℕ → List ℕ → Io (List ℕ)
  pread_loop zero offset n total = ok total
  pread_loop (suc rounds) offset n total =
      let body : Io (List ℕ) = elim (read_exact_at (offset + length total) (n - length total)) [
        | err e ↦ err e
        | ok bytes ↦
            let rest = pread_loop rounds offset n (total ++ bytes) in
            if length bytes == 0 then ok total else rest
      ] in
      if ltb (length total) n then body else ok total

  unfoldable pub pread_read_at : ℕ → ℕ → ℕ → Io (List ℕ)
  pread_read_at file_len offset out_len =
      let n = min out_len (file_len - offset) in
      if out_len == 0 || leb file_len offset then ok [] else pread_loop n offset n []

  unfoldable pub pread_source : ℕ → ByteSource
  unfolding pread_read_at
  pread_source file_len = record {
    len = file_len;
    read_at = pread_read_at file_len;
    as_slice = none;
  }

-- The whole map is an honest source of its bytes.
pub mmap_source-Serves : (s : Slice) → IsSlice s → Serves (mmap_source s) s.bytes
unfolding mmap_source
mmap_source-Serves s mapped = record {
  size = refl;
  reads = λ offset n pos inside. (
    min n (len s - offset),
    omega arith,
    omega arith,
    omega arith,
    unfold mmap_read_at in ground arith,
  );
  whole = λ t e.
      let same : s ≡ t = ground arith in
      (subst IsSlice same mapped, ap (λ (x : Slice). x.bytes) (sym same));
}

-- No more is taken than there is.
take_length : (n m : ℕ) (ys : List ℕ) → m ≡ min n (length ys) → take m ys ≡ take n ys
take_length zero zero ys e = refl
take_length zero (suc m) ys e = absurd (omega arith)
take_length (suc n) zero [] e = refl
take_length (suc n) zero (y ∷ ys) e = absurd (omega arith)
take_length (suc n) (suc m) [] e = refl
take_length (suc n) (suc m) (y ∷ ys) e = ap (λ zs. y ∷ zs) (take_length n m ys (omega arith))

take_empty : (n : ℕ) → take {A = ℕ} n [] ≡ []
take_empty zero = refl
take_empty (suc n) = refl

-- What a positional read of a file that holds `xs` answers: some of the bytes at the offset, at least
-- one while the offset lies inside the file.
abbrev pub Reads : (ℕ → ℕ → Io (List ℕ)) → List ℕ → Type 0
Reads read_exact_at xs =
    (offset n : ℕ)
    → 0 < n
    → offset < length xs
    → (k : ℕ) × (0 < k)
      × (k ≤ n)
      × (offset + k ≤ length xs)
      × (read_exact_at offset n ≡ ok (take k (drop offset xs)))

module _ (read_exact_at : ℕ → ℕ → Io (List ℕ)) (xs : List ℕ) (reads : Reads read_exact_at xs) where
  pread_loop-take :
      (rounds offset n k : ℕ)
      → offset + n ≤ length xs
      → k ≤ n
      → n ≤ rounds + k
      → pread_loop read_exact_at rounds offset n (take k (drop offset xs))
        ≡ ok (take n (drop offset xs))
  unfolding pread_loop
  pread_loop-take zero offset n k fits le enough = let same : k ≡ n = omega arith in ground arith
  pread_loop-take (suc rounds) offset n k fits le enough =
      let size : length (take k (drop offset xs)) ≡ k =
        omega (arith, length-take k (drop offset xs), length-drop offset xs) in
      elim (Bool-cases (ltb k n)) [
        | inr full ↦ let same : k ≡ n = ground arith in ground arith
        | inl more ↦
            let (j, pos, small, inside, read) =
              reads (offset + k) (n - k) (ground arith) (ground arith) in
            ground (
              arith,
              read,
              length-take j (drop (offset + k) xs),
              length-drop (offset + k) xs,
              take_add k j (drop offset xs),
              drop-drop k offset xs,
              pread_loop-take rounds offset n (k + j) fits (ground arith) (omega arith),
            )
      ]

  take-min :
      (n offset : ℕ) → take (min n (length xs - offset)) (drop offset xs) ≡ take n (drop offset xs)
  take-min n offset =
      take_length n (min n (length xs - offset)) (drop offset xs)
        (omega (arith, length-drop offset xs))

  take_none : (n offset : ℕ) → (n ≡ 0) ⊎ (length xs ≤ offset) → take n (drop offset xs) ≡ []
  take_none n offset (inl e) = rw e refl
  take_none n offset (inr past) = rw (drop_all xs offset past) (take_empty n)

  -- A read of the source, at any offset and for any buffer.
  pread_read_at-take :
      (offset n : ℕ)
      → pread_read_at read_exact_at (length xs) offset n ≡ ok (take n (drop offset xs))
  unfolding pread_read_at
  pread_read_at-take offset n =
      let m = min n (length xs - offset) in
      elim (Bool-cases (n == 0 || leb (length xs) offset)) [
        | inl empty ↦ rw empty (ap (λ ys. ok ys) (sym (take_none n offset (ground arith))))
        | inr inside ↦
            rw
              (
                inside,
                pread_loop-take m offset m 0 (ground arith) (omega arith) (omega arith),
                take-min n offset,
              )
              refl
      ]

  pread_source-Serves : Serves (pread_source read_exact_at (length xs)) xs
  unfolding pread_source
  pread_source-Serves = record {
    size = refl;
    reads = λ offset n pos inside.
        let m = min n (length xs - offset) in
        (
          m,
          omega arith,
          omega arith,
          omega arith,
          rw (take-min n offset) (pread_read_at-take offset n),
        );
    whole = λ t e. absurd cc;
  }

  -- The source over positional reads is an honest source of the file, and more: one read of it, at every
  -- offset and for every size of the buffer, returns all the bytes from the offset on that the buffer holds,
  -- those up to the end of the file where it holds more, and none past the end, however short the reads
  -- of the system are.
  pub pread_source-take :
      Serves (pread_source read_exact_at (length xs)) xs
      × ((offset n : ℕ)
          → (pread_source read_exact_at (length xs)).read_at offset n
            ≡ ok (take n (drop offset xs)))
  unfolding pread_source
  pread_source-take = (pread_source-Serves, pread_read_at-take)
