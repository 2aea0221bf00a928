-- ===== src/Scanner/Partition/Reference.antt =====
-- The cut points that a delimiter, a file and a number of partitions determine, as a pure function.
use native.Mathlib.Nat.{div-lt_iff_lt-mul, mul-le-mul_left}
use mmap_chunker_core.Base.{
  ℕ, zero, suc, ◌+◌, ◌-◌, ◌*◌, ◌/◌, ◌≤◌, ◌<◌, ◌≡◌, refl, arith, true, Bool, ◌&&◌, List, [], ◌∷◌,
  length, drop, drop_congr, none, some, Option-cases, Bool-cases, inl, inr, leb, if◌then◌else◌, All,
  ◌⊎◌,
}
use mmap_chunker_core.Search.{starts_with}
use mmap_chunker_core.Search.From.{search_from, search_from_found}

-- The bytes before `t` end with a whole delimiter.
unfoldable pub ends_at : List ℕ → List ℕ → ℕ → Bool
ends_at p xs t = leb (length p) t && starts_with p (drop (t - length p) xs)

-- The cut that a target calls for: the target itself behind a delimiter, else the end of the next
-- delimiter, else the end of the file.
unfoldable pub snap_cut : List ℕ → List ℕ → ℕ → ℕ
snap_cut p xs t =
    if ends_at p xs t
    then t
    else elim (search_from p xs t) [ none ↦ length xs | some c ↦ c + length p ]

module _ (p xs : List ℕ) (n : ℕ) where
  -- The cuts of the targets from the `i`-th on, `left` of them, that lie past the last cut.
  unfoldable pub cuts : ℕ → ℕ → ℕ → List ℕ
  cuts zero i last = []
  cuts (suc left) i last =
      let target = length xs * i / n in
      let skip = cuts left (i + 1) last in
      let take = snap_cut p xs target ∷ cuts left (i + 1) (snap_cut p xs target) in
      if leb target last then skip else take

-- Cut points in order behind `last`, none past the end of the file.
abbrev pub Ascends : ℕ → ℕ → List ℕ → Type 0
Ascends n last [] = Unit {0}
Ascends n last (b ∷ bs) = (last < b) × (b ≤ n) × Ascends n b bs

module _ (p xs : List ℕ) where
  -- A cut lies at its target or after it, inside the file.
  pub snap_cut_bounds :
      (t : ℕ) → t < length xs → (t ≤ snap_cut p xs t) × (snap_cut p xs t ≤ length xs)
  unfolding snap_cut
  snap_cut_bounds t h = elim (Option-cases (search_from p xs t)) [
    | inl e ↦ ground arith
    | inr (c, e) ↦ ground (arith, search_from_found p xs t c (omega arith) e)
  ]

  -- A cut before the end of the file stands behind a whole delimiter.
  pub snap_cut-ends_at :
      (t : ℕ)
      → t < length xs
      → (snap_cut p xs t ≡ length xs) ⊎ (ends_at p xs (snap_cut p xs t) ≡ true)
  snap_cut-ends_at t h = elim (Bool-cases (ends_at p xs t)) [
    | inl e ↦ inr (unfold snap_cut in rw (e, e) refl)
    | inr e ↦ elim (Option-cases (search_from p xs t)) [
      | inl f ↦ inl (unfold snap_cut in rw (e, f) refl)
      | inr (c, f) ↦
          let found = search_from_found p xs t c (omega arith) f in
          let back : drop (c + length p - length p) xs ≡ drop c xs =
            drop_congr xs (c + length p - length p) c (omega arith) in
          inr (unfold snap_cut ends_at in ground (arith, found.2))
    ]
  ]

  pub target_lt : (n i : ℕ) → i < n → n ≤ length xs → length xs * i / n < length xs
  target_lt n i h k =
      (div-lt_iff_lt-mul {k = n} {x = length xs * i} {y = length xs} (omega arith)).1
        (omega (arith, mul-le-mul_left (length xs) h))

  pub cuts-Ascends :
      (n left i last : ℕ)
      → i + left ≤ n
      → n ≤ length xs
      → Ascends (length xs) last (cuts p xs n left i last)
  unfolding cuts
  cuts-Ascends n zero i last h k = tt
  cuts-Ascends n (suc left) i last h k = ground (
    arith,
    target_lt n i (omega arith) k,
    snap_cut_bounds (length xs * i / n),
    cuts-Ascends n left (i + 1) last,
    cuts-Ascends n left (i + 1) (snap_cut p xs (length xs * i / n)),
  )

  -- Once the file is cut at its end no target is left.
  pub cuts_end : (n left i : ℕ) → i + left ≤ n → n ≤ length xs → cuts p xs n left i (length xs) ≡ []
  unfolding cuts
  cuts_end n zero i h k = refl
  cuts_end n (suc left) i h k =
      ground (arith, target_lt n i (omega arith) k, cuts_end n left (i + 1))

  -- What a cut point must be: the end of the file, or an offset behind a whole delimiter.
  abbrev pub IsCut : ℕ → Type 0
  IsCut b = (b ≡ length xs) ⊎ (ends_at p xs b ≡ true)

  pub cuts-IsCut :
      (n left i last : ℕ) → i + left ≤ n → n ≤ length xs → All IsCut (cuts p xs n left i last)
  unfolding cuts
  cuts-IsCut n zero i last h k = tt
  cuts-IsCut n (suc left) i last h k =
      let t = length xs * i / n in
      elim (Bool-cases (leb t last)) [
        | inl skip ↦ rw skip (cuts-IsCut n left (i + 1) last (omega arith) k)
        | inr go ↦ rw go (
          snap_cut-ends_at t (target_lt n i (omega arith) k),
          cuts-IsCut n left (i + 1) (snap_cut p xs t) (omega arith) k,
        )
      ]

  pub length-cuts-le : (n left i last : ℕ) → length (cuts p xs n left i last) ≤ left
  unfolding cuts
  length-cuts-le n zero i last = omega arith
  length-cuts-le n (suc left) i last = ground (
    arith,
    length-cuts-le n left (i + 1) last,
    length-cuts-le n left (i + 1) (snap_cut p xs (length xs * i / n)),
  )
