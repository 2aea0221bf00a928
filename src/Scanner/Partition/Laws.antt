-- ===== src/Scanner/Partition/Laws.antt =====
-- The two planners compute the reference cuts, without a panic and without an overflow.
use native.Mathlib.Nat.{mul-le-mul, mod-eq_of_lt}
use mmap_chunker_core.Base.{
  ℕ, zero, suc, ◌+◌, ◌-◌, ◌*◌, ◌/◌, ◌%◌, ◌^◌, ◌≤◌, ◌<◌, ◌≡◌, refl, arith, List, [], ◌∷◌, length,
  take, drop, drop_cons, All-drop, length-drop, get_elem?, get_elem?_lt, some, Option-cases, inl,
  inr, ◌==◌, done, isize_max, add_usize_lem, saturating_add_lem,
}
use mmap_chunker_core.Slice.{Slice, len, IsSlice, tail_at, index, slice_from_lem, slice_range_lem}
use mmap_chunker_core.Search.{starts_with, position, search}
use mmap_chunker_core.Search.Laws.{search-singleton, search_fits, position-lt}
use mmap_chunker_core.Bits.Zeros.{IsByte}
use mmap_chunker_core.Scanner.Swar.Laws.{find_byte_swar_lem}
use mmap_chunker_core.Scanner.Pattern.Laws.{find_pattern_in_slice_lem}
use mmap_chunker_core.Scanner.Chunks.Laws.{IsDelimiter}
use mmap_chunker_core.Scanner.Partition.{
  ideal_target, slices_equal, boundary_loop, pattern_boundary_loop,
}
use mmap_chunker_core.Scanner.Partition.Reference.{ends_at, cuts, target_lt}
use mmap_chunker_core.Scanner.Partition.Rounds.{cut_round, loop-cuts}

-- The 128-bit product and the cast back to `usize` lose nothing.
pub ideal_target_lem :
    (xs : List ℕ) (n i : ℕ)
    → length xs ≤ isize_max
    → i < n
    → n ≤ length xs
    → ideal_target (length xs) n i ≡ length xs * i / n
unfolding ideal_target
ideal_target_lem xs n i h lt le =
    let big : length xs * i ≤ isize_max * isize_max = mul-le-mul {m₂ = isize_max} h (omega arith) in
    let exact : length xs * i % 2 ^ 128 ≡ length xs * i = mod-eq_of_lt (omega arith) in
    rw exact (mod-eq_of_lt (omega (arith, target_lt [] xs n i lt le)))

-- The byte before a target tells whether the target stands behind a delimiter.
pub ends_at-singleton :
    (d : ℕ) (xs : List ℕ) (t b : ℕ)
    → 0 < t
    → get_elem? xs (t - 1) ≡ some b
    → ends_at (d ∷ []) xs t ≡ (b == d)
unfolding ends_at starts_with
ends_at-singleton d xs t b pos e = ground (arith, drop_cons xs (t - 1) e)

pub slices_equal-take :
    (p xs : List ℕ) (n : ℕ)
    → n ≡ length p
    → length p ≤ length xs
    → slices_equal (take n xs) p ≡ starts_with p xs
unfolding starts_with
slices_equal-take [] xs zero e h = refl
slices_equal-take [] xs (suc n) e h = absurd (omega arith)
slices_equal-take (q ∷ p) xs zero e h = absurd (omega arith)
slices_equal-take (q ∷ p) [] (suc n) e h = absurd (omega arith)
slices_equal-take (q ∷ p) (x ∷ xs) (suc n) e h =
    ground (arith, slices_equal-take p xs n (omega arith) (omega arith))

module _ (s : Slice) (n : ℕ) (ok : IsSlice s) (capped : n ≤ len s) where
  module _ (d : ℕ) (byte : IsByte d) where
    boundary_loop_skips :
        (left i last : ℕ)
        → i + suc left ≤ n
        → len s * i / n ≤ last
        → boundary_loop s n d (suc left) i last ≡ boundary_loop s n d left (i + 1) last
    unfolding boundary_loop
    boundary_loop_skips left i last h past =
        ground (arith, ideal_target_lem s.bytes n i ok.fits (omega arith) capped)

    boundary_loop_rounds :
        (left i last : ℕ)
        → i + suc left ≤ n
        → last < len s * i / n
        → boundary_loop s n d (suc left) i last
          ≡ cut_round (d ∷ []) s.bytes (len s * i / n) (boundary_loop s n d left (i + 1))
    unfolding boundary_loop index
    boundary_loop_rounds left i last h past =
        let t = len s * i / n in
        let rest = drop t s.bytes in
        let below : t < len s = target_lt [] s.bytes n i (omega arith) capped in
        let (b, at) = get_elem?_lt s.bytes (t - 1) (omega arith) in
        let exact = ends_at-singleton d s.bytes t b (omega arith) at in
        let target = ideal_target_lem s.bytes n i ok.fits (omega arith) capped in
        let scan = find_byte_swar_lem (tail_at s t) d (All-drop IsByte t s.bytes ok.bytes) byte in
        elim (Option-cases (position d rest)) [
          | inl e ↦
              ground (arith, target, at, exact, slice_from_lem s t, scan, search-singleton d rest)
          | inr (r, e) ↦ ground (
            arith,
            ok.fits,
            target,
            at,
            exact,
            slice_from_lem s t,
            scan,
            search-singleton d rest,
            position-lt d rest r e,
            length-drop t s.bytes,
            add_usize_lem t r,
            add_usize_lem (t + r) 1,
          )
        ]

    pub boundary_loop-cuts :
        (left i last : ℕ)
        → i + left ≤ n
        → boundary_loop s n d left i last ≡ done (cuts (d ∷ []) s.bytes n left i last)
    boundary_loop-cuts =
        loop-cuts (d ∷ []) s.bytes n capped (boundary_loop s n d)
          (unfold boundary_loop in λ i last. refl) boundary_loop_skips boundary_loop_rounds

  module _ (p : List ℕ) (del : IsDelimiter p) where
    pattern_loop_skips :
        (left i last : ℕ)
        → i + suc left ≤ n
        → len s * i / n ≤ last
        → pattern_boundary_loop s n p (suc left) i last
          ≡ pattern_boundary_loop s n p left (i + 1) last
    unfolding pattern_boundary_loop
    pattern_loop_skips left i last h past =
        ground (arith, ideal_target_lem s.bytes n i ok.fits (omega arith) capped)

    pattern_loop_rounds :
        (left i last : ℕ)
        → i + suc left ≤ n
        → last < len s * i / n
        → pattern_boundary_loop s n p (suc left) i last
          ≡ cut_round p s.bytes (len s * i / n) (pattern_boundary_loop s n p left (i + 1))
    unfolding pattern_boundary_loop ends_at
    pattern_loop_rounds left i last h past =
        let t = len s * i / n in
        let rest = drop t s.bytes in
        let below : t < len s = target_lt [] s.bytes n i (omega arith) capped in
        let target = ideal_target_lem s.bytes n i ok.fits (omega arith) capped in
        let tail = slice_range_lem s (t - length p) t in
        let exact = slices_equal-take p (drop (t - length p) s.bytes) (t - (t - length p)) in
        let scan =
          find_pattern_in_slice_lem (tail_at s t) p (All-drop IsByte t s.bytes ok.bytes)
            del.bytes in
        elim (Option-cases (search p rest)) [
          | inl e ↦ ground (
            arith,
            target,
            tail,
            exact,
            del.nonempty,
            length-drop (t - length p) s.bytes,
            slice_from_lem s t,
            scan,
          )
          | inr (r, e) ↦ ground (
            arith,
            ok.fits,
            del.nonempty,
            target,
            tail,
            exact,
            length-drop (t - length p) s.bytes,
            slice_from_lem s t,
            scan,
            search_fits p rest r e,
            length-drop t s.bytes,
            saturating_add_lem t r,
            saturating_add_lem (t + r) (length p),
          )
        ]

    pub pattern_boundary_loop-cuts :
        (left i last : ℕ)
        → i + left ≤ n
        → pattern_boundary_loop s n p left i last ≡ done (cuts p s.bytes n left i last)
    pattern_boundary_loop-cuts =
        loop-cuts p s.bytes n capped (pattern_boundary_loop s n p)
          (unfold pattern_boundary_loop in λ i last. refl) pattern_loop_skips pattern_loop_rounds
