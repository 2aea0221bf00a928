-- ===== src/Fuzz/Differential/Oracles.antt =====
-- The oracles compute the reference chunks and cuts.
use mmap_chunker_core.Base.{
  ◌∙◌, ℕ, zero, suc, ◌+◌, ◌-◌, ◌*◌, ◌/◌, ◌≤◌, ◌<◌, ◌≡◌, refl, arith, max, min, List, [], ◌∷◌,
  length, drop, drop_cons, length-drop, get_elem?, get_elem?_lt, none, some, Option-cases,
  Bool-cases, inl, inr, leb, ◌==◌, ltb, done, saturating_add_lem,
}
use mmap_chunker_core.Slice.{Slice, len, IsSlice, index, slice_range_lem}
use mmap_chunker_core.Search.{starts_with}
use mmap_chunker_core.Search.From.{
  search_from, search_from_hit, search_from_miss, search_from_end, search_from_short,
  search_from_found,
}
use mmap_chunker_core.Scanner.Chunks.Reference.{snap, snap_bounds, chunks}
use mmap_chunker_core.Scanner.Chunks.Laws.{chunks_of, target_cases}
use mmap_chunker_core.Scanner.Partition.Reference.{snap_cut, cuts, cuts_end, target_lt}
use mmap_chunker_core.Scanner.Partition.Laws.{
  ideal_target_lem, ends_at-singleton, slices_equal-take,
}
use mmap_chunker_core.Scanner.Partition.Correct.{partitions, guarded_partitions}
use mmap_chunker_core.Fuzz.Differential.{
  position_loop, scalar_end, scalar_single_loop, scalar_single, scalar_cuts, scalar_partition,
  boundary_scan, scalar_pattern_loop, scalar_pattern,
}

module _ (s : Slice) (ok : IsSlice s) where
  module _ (d : ℕ) where
    stands_at :
        (t b : ℕ) → get_elem? s.bytes t ≡ some b → starts_with (d ∷ []) (drop t s.bytes) ≡ (b == d)
    unfolding starts_with
    stands_at t b at = ground (arith, drop_cons s.bytes t at)

    position_loop-search_from :
        (fuel t : ℕ)
        → t ≤ len s
        → len s < t + fuel
        → position_loop s d fuel t
          ≡ done (elim (search_from (d ∷ []) s.bytes t) [ none ↦ len s | some i ↦ i ])
    unfolding position_loop index
    position_loop-search_from zero t h f = absurd (omega arith)
    position_loop-search_from (suc fuel) t h f = elim (Bool-cases (ltb t (len s))) [
      | inr out ↦
          let same : t ≡ len s = ground arith in ground (arith, search_from_end (d ∷ []) s.bytes t)
      | inl inside ↦
          let (b, at) = get_elem?_lt s.bytes t (ground arith) in
          elim (Bool-cases (b == d)) [
            | inl hit ↦
                rw
                  (
                    search_from_hit (d ∷ []) s.bytes t (ground arith) (stands_at t b at ∙ hit),
                    inside,
                    at,
                    hit,
                  )
                  refl
            | inr miss ↦
                rw
                  (
                    search_from_miss (d ∷ []) s.bytes t (ground arith) (stands_at t b at ∙ miss),
                    inside,
                    at,
                    miss,
                  )
                  (position_loop-search_from fuel (t + 1) (ground arith) (omega arith))
          ]
    ]

    scalar_end-search_from :
        (t : ℕ)
        → t ≤ len s
        → scalar_end s d t
          ≡ done (elim (search_from (d ∷ []) s.bytes t) [ none ↦ len s | some i ↦ i + 1 ])
    unfolding scalar_end
    scalar_end-search_from t h = elim (Option-cases (search_from (d ∷ []) s.bytes t)) [
      | inl e ↦
          ground (
            arith,
            ok.fits,
            position_loop-search_from (suc (len s)) t,
            saturating_add_lem (len s) 1,
          )
      | inr (i, e) ↦ ground (
        arith,
        ok.fits,
        position_loop-search_from (suc (len s)) t,
        search_from_found (d ∷ []) s.bytes t i h e,
        saturating_add_lem i 1,
      )
    ]

    scalar_single_loop-chunks :
        (step fuel start : ℕ)
        → 0 < step
        → start ≤ len s
        → len s < start + fuel
        → scalar_single_loop s d step fuel start ≡ done (chunks (d ∷ []) s.bytes step fuel start)
    unfolding scalar_single_loop chunks snap
    scalar_single_loop-chunks step zero start pos h f = absurd (omega arith)
    scalar_single_loop-chunks step (suc fuel) start pos h f = ground (
      arith,
      target_cases s start step ok.fits,
      scalar_end-search_from (start + step),
      snap_bounds (d ∷ []) s.bytes step start pos,
      scalar_single_loop-chunks step fuel (snap (d ∷ []) s.bytes step start) pos,
    )

    pub scalar_single-chunks_of :
        (chunk_size : ℕ)
        → scalar_single s d chunk_size ≡ done (chunks_of (d ∷ []) chunk_size s.bytes)
    unfolding scalar_single
    scalar_single-chunks_of chunk_size =
        scalar_single_loop-chunks (max chunk_size 1) (suc (len s)) 0 (omega arith) (omega arith)
          (omega arith)

    module _ (n : ℕ) (capped : n ≤ len s) where
      scalar_cuts-cuts :
          (left i last : ℕ)
          → i + left ≤ n
          → scalar_cuts s d n left i last ≡ done (cuts (d ∷ []) s.bytes n left i last)
      unfolding scalar_cuts cuts snap_cut index
      scalar_cuts-cuts zero i last h = refl
      scalar_cuts-cuts (suc left) i last h =
          let t = len s * i / n in
          let target = ideal_target_lem s.bytes n i ok.fits (omega arith) capped in
          let below : t < len s = target_lt [] s.bytes n i (omega arith) capped in
          elim (Bool-cases (leb t last)) [
            | inl past ↦ ground (arith, target, scalar_cuts-cuts left (i + 1) last (omega arith))
            | inr ahead ↦
                let (b, at) = get_elem?_lt s.bytes (t - 1) (omega arith) in
                let exact = ends_at-singleton d s.bytes t b (ground arith) at in
                let at_target = scalar_cuts-cuts left (i + 1) t (omega arith) in
                elim (Option-cases (search_from (d ∷ []) s.bytes t)) [
                  | inl e ↦ ground (
                    arith,
                    target,
                    at,
                    exact,
                    at_target,
                    scalar_end-search_from t,
                    cuts_end (d ∷ []) s.bytes n left (i + 1) (omega arith) capped,
                  )
                  | inr (c, e) ↦ ground (
                    arith,
                    target,
                    at,
                    exact,
                    at_target,
                    scalar_end-search_from t,
                    cuts_end (d ∷ []) s.bytes n left (i + 1) (omega arith) capped,
                    scalar_cuts-cuts left (i + 1) (c + 1) (omega arith),
                  )
                ]
          ]

    pub scalar_partition-partitions :
        (num : ℕ) → scalar_partition s d num ≡ done (partitions (d ∷ []) s.bytes num)
    unfolding scalar_partition
    scalar_partition-partitions num =
        let n = min num (len s) in
        guarded_partitions (d ∷ []) s.bytes num _
          λ pos asked. rw (scalar_cuts-cuts n (omega arith) (n - 1) 1 0 (omega arith)) refl

  module _ (p : List ℕ) (nonempty : 0 < length p) where
    boundary_scan-search_from :
        (fuel t : ℕ)
        → 0 < t
        → t ≤ len s
        → len s < t + fuel
        → boundary_scan s p fuel t
          ≡ done (elim (search_from p s.bytes t) [ none ↦ len s | some i ↦ i + length p ])
    unfolding boundary_scan
    boundary_scan-search_from zero t pos h f = absurd (omega arith)
    boundary_scan-search_from (suc fuel) t pos h f = elim (Bool-cases (leb t (len s - length p))) [
      | inr out ↦ rw (search_from_short p s.bytes t h (ground arith), out) refl
      | inl inside ↦
          let there = slice_range_lem s t (t + length p) (omega arith) (ground arith) in
          let stands =
            slices_equal-take p (drop t s.bytes) (t + length p - t) (omega arith)
              (ground (arith, length-drop t s.bytes)) in
          elim (Bool-cases (starts_with p (drop t s.bytes))) [
            | inl hit ↦
                rw (search_from_hit p s.bytes t (ground arith) hit, inside, there, stands, hit) refl
            | inr miss ↦
                rw (search_from_miss p s.bytes t (ground arith) miss, inside, there, stands, miss)
                  (boundary_scan-search_from fuel (t + 1) (omega arith) (ground arith)
                    (omega arith))
          ]
    ]

    scalar_pattern_loop-chunks :
        (step fuel start : ℕ)
        → 0 < step
        → start ≤ len s
        → len s < start + fuel
        → scalar_pattern_loop s p step fuel start ≡ done (chunks p s.bytes step fuel start)
    unfolding scalar_pattern_loop chunks snap
    scalar_pattern_loop-chunks step zero start pos h f = absurd (omega arith)
    scalar_pattern_loop-chunks step (suc fuel) start pos h f = ground (
      arith,
      target_cases s start step ok.fits,
      boundary_scan-search_from (suc (len s)) (start + step),
      snap_bounds p s.bytes step start pos,
      scalar_pattern_loop-chunks step fuel (snap p s.bytes step start) pos,
    )

    pub scalar_pattern-chunks_of :
        (chunk_size : ℕ) → scalar_pattern s p chunk_size ≡ done (chunks_of p chunk_size s.bytes)
    unfolding scalar_pattern
    scalar_pattern-chunks_of chunk_size =
        ground (arith, scalar_pattern_loop-chunks (max chunk_size 1) (suc (len s)) 0)
