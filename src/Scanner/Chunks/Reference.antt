-- ===== src/Scanner/Chunks/Reference.antt =====
-- The chunks that a delimiter, a file and a step determine, as a pure function, and what they are.
use mmap_chunker_core.Base.{
  ℕ, zero, suc, ◌+◌, ◌-◌, ◌≤◌, ◌<◌, ◌≡◌, refl, arith, true, false, List, [], ◌∷◌, length, drop,
  drop-drop, drop_congr, length-drop, none, some, Option-cases, Bool-cases, inl, inr, ltb, leb,
  leb→le, leb→lt, if◌then◌else◌, All, ◌⊎◌,
}
use mmap_chunker_core.Ranges.{Range, Covers}
use mmap_chunker_core.Search.{starts_with, search}
use mmap_chunker_core.Search.Laws.{search_fits, search_found, search_first, search-none}
use mmap_chunker_core.Search.From.{search_from}

module _ (p xs : List ℕ) (step : ℕ) where
  -- A chunk ends behind the first delimiter that begins `step` bytes or more after its start, or with
  -- the file.
  unfoldable pub snap : ℕ → ℕ
  snap start =
      if leb (length xs) (start + step)
      then length xs
      else elim (search_from p xs (start + step)) [ none ↦ length xs | some i ↦ i + length p ]

  unfoldable pub chunks : ℕ → ℕ → List Range
  chunks zero start = []
  chunks (suc fuel) start =
      let cut = (start, snap start) ∷ chunks fuel (snap start) in
      if ltb start (length xs) then cut else []

  -- What a chunk must be: it ends behind the first delimiter at or after `start + step`, or it reaches
  -- the end of the file since the file has no delimiter there.
  abbrev pub IsChunk : Range → Type 0
  IsChunk (start, end) =
      ((cut : ℕ) × (end ≡ cut + length p)
        × (start + step ≤ cut)
        × (end ≤ length xs)
        × (starts_with p (drop cut xs) ≡ true)
        × ((j : ℕ) → start + step ≤ j → j < cut → starts_with p (drop j xs) ≡ false))
      ⊎ ((end ≡ length xs)
          × ((j : ℕ) → start + step ≤ j → j < length xs → starts_with p (drop j xs) ≡ false))

  pub snap_bounds :
      (start : ℕ) → 0 < step → start < length xs → (start < snap start) × (snap start ≤ length xs)
  unfolding snap
  snap_bounds start pos h = elim (Option-cases (search p (drop (start + step) xs))) [
    | inl e ↦ ground arith
    | inr (i, e) ↦
        ground (arith, search_fits p (drop (start + step) xs) i e, length-drop (start + step) xs)
  ]

  -- The three ways in which a chunk ends.
  snap_past : (start : ℕ) → length xs ≤ start + step → snap start ≡ length xs
  unfolding snap
  snap_past start h = ground arith

  snap_missing : (start : ℕ) → search p (drop (start + step) xs) ≡ none → snap start ≡ length xs
  unfolding snap
  snap_missing start e = ground arith

  snap_found :
      (start i : ℕ)
      → start + step < length xs
      → search p (drop (start + step) xs) ≡ some i
      → snap start ≡ start + step + i + length p
  unfolding snap
  snap_found start i h e = ground arith

  found-IsChunk :
      (start i : ℕ)
      → start + step < length xs
      → search p (drop (start + step) xs) ≡ some i
      → IsChunk (start, snap start)
  found-IsChunk start i h e =
      let from = start + step in
      let end : snap start ≡ from + i + length p = snap_found start i h e in
      inl (
        from + i,
        end,
        omega arith,
        omega (arith, search_fits p (drop from xs) i e, length-drop from xs),
        rw (← drop-drop i from xs) (search_found p (drop from xs) i e),
        λ j q r.
            rw (drop_congr xs j (from + (j - from)) (omega arith), ← drop-drop (j - from) from xs)
              (search_first p (drop from xs) i (j - from) e (omega arith)),
      )

  missing-IsChunk :
      (start : ℕ)
      → start + step < length xs
      → search p (drop (start + step) xs) ≡ none
      → IsChunk (start, snap start)
  missing-IsChunk start h e =
      let from = start + step in
      inr (
        snap_missing start e,
        λ j q r.
            rw (drop_congr xs j (from + (j - from)) (omega arith), ← drop-drop (j - from) from xs)
              (search-none p (drop from xs) (j - from) e (omega (arith, length-drop from xs))),
      )

  pub snap-IsChunk : (start : ℕ) → IsChunk (start, snap start)
  snap-IsChunk start = elim (Bool-cases (leb (length xs) (start + step))) [
    | inl past ↦ inr (
      snap_past start (leb→le (length xs) (start + step) past),
      λ j q r. absurd (omega (arith, leb→le (length xs) (start + step) past)),
    )
    | inr inside ↦ elim (Option-cases (search p (drop (start + step) xs))) [
      | inl e ↦ missing-IsChunk start (leb→lt _ _ inside) e
      | inr (i, e) ↦ found-IsChunk start i (leb→lt _ _ inside) e
    ]
  ]

  -- With enough fuel the chunks cover the rest of the file.
  pub chunks-Covers :
      (fuel start : ℕ)
      → 0 < step
      → start ≤ length xs
      → length xs < start + fuel
      → Covers start (length xs) (chunks fuel start)
  unfolding chunks
  chunks-Covers zero start pos h f = absurd (omega arith)
  chunks-Covers (suc fuel) start pos h f =
      ground (arith, snap_bounds start pos, chunks-Covers fuel (snap start) pos)

  pub chunks-IsChunk : (fuel start : ℕ) → All IsChunk (chunks fuel start)
  unfolding chunks
  chunks-IsChunk zero start = tt
  chunks-IsChunk (suc fuel) start = elim (Bool-cases (ltb start (length xs))) [
    | inl more ↦ rw more (snap-IsChunk start, chunks-IsChunk fuel (snap start))
    | inr stop ↦ rw stop tt
  ]

  pub chunks_empty : (fuel : ℕ) → length xs ≡ 0 → chunks fuel 0 ≡ []
  unfolding chunks
  chunks_empty zero h = refl
  chunks_empty (suc fuel) h = ground arith
