-- ===== src/Source/FailingPlan.antt =====
-- The buffered planner over a source whose reads may fail.
use mmap_chunker_core.Base.{
  ℕ, zero, suc, ◌+◌, ◌-◌, ◌*◌, ◌/◌, ◌≤◌, ◌<◌, ◌≡◌, refl, arith, false, Bool-cases, min, List, [],
  ◌∷◌, length, drop, length-take, length-drop, none, some, Option-cases, inl, inr, Run, done, ok,
  Io, isize_max, leb, All, saturating_add, saturating_add_lem,
}
use mmap_chunker_core.Bits.Zeros.{IsByte}
use mmap_chunker_core.Search.From.{search_from, search_from_found}
use mmap_chunker_core.Scanner.Chunks.Laws.{IsDelimiter}
use mmap_chunker_core.Scanner.Partition.{ideal_target}
use mmap_chunker_core.Scanner.Partition.Reference.{ends_at, snap_cut, cuts, cuts_end, target_lt}
use mmap_chunker_core.Scanner.Partition.Laws.{ideal_target_lem, slices_equal-take}
use mmap_chunker_core.Source.{ByteSource}
use mmap_chunker_core.Source.Read.{and_ok, find_pattern_from}
use mmap_chunker_core.Source.Planner.{buffered_loop}
use mmap_chunker_core.Source.Failures.{
  MayServe, Settles, and_ok-Settles, fill-Settles, find_pattern_from-Settles,
}

Settles-eq :
    {A : Type 0} (source : ByteSource) (xs : List ℕ) (run run' : Run (Io A)) (a a' : A)
    → run ≡ run'
    → a ≡ a'
    → Settles source xs run' a'
    → Settles source xs run a
Settles-eq source xs run run' a a' p q h = rw (p, q) h

module _ (source : ByteSource) (xs : List ℕ) (serves : MayServe source xs) (p : List ℕ)
    (del : IsDelimiter p) (bytes : All IsByte xs) (small : length xs ≤ isize_max)
    (buffer_addr buffer_len : ℕ) (holds : length p ≤ buffer_len)
    (addressable : buffer_len ≤ isize_max) (n : ℕ) (capped : n ≤ length xs) where
  abbrev loop : ℕ → ℕ → ℕ → Run (Io (List ℕ))
  loop left i last = buffered_loop source buffer_addr buffer_len n p left i last

  abbrev pushed : ℕ → ℕ → ℕ → Run (Io (List ℕ))
  pushed left i b = and_ok (loop left (i + 1) b) (λ bs. done (ok (b ∷ bs)))

  -- A round that searches forward from its target.
  forward_round :
      (left i last : ℕ)
      → i + suc left ≤ n
      → last < length xs * i / n
      → ends_at p xs (length xs * i / n) ≡ false
      → loop (suc left) i last
        ≡ and_ok (find_pattern_from source buffer_addr buffer_len (length xs * i / n) p) (λ found.
          elim found [
            | some position ↦ pushed left i (min (saturating_add position (length p)) source.len)
            | none ↦ done (ok (source.len ∷ []))
          ])
      → ((b : ℕ) → Settles source xs (loop left (i + 1) b) (cuts p xs n left (i + 1) b))
      → Settles source xs (loop (suc left) i last) (cuts p xs n (suc left) i last)
  unfolding cuts snap_cut
  forward_round left i last h ahead inexact step rest =
      let t = length xs * i / n in
      let below : t < length xs = target_lt [] xs n i (omega arith) capped in
      elim (find_pattern_from-Settles source xs serves p del bytes small buffer_addr buffer_len t
        holds addressable (omega arith)) [
          | inr (e, failed, f) ↦ inr (e, ground arith, f)
          | inl found ↦ elim (Option-cases (search_from p xs t)) [
            | inl nowhere ↦
                inl (ground (arith, serves.size, cuts_end p xs n left (i + 1) (omega arith) capped))
            | inr (c, at) ↦
                let b = c + length p in
                Settles-eq source xs (loop (suc left) i last) (pushed left i b)
                  (cuts p xs n (suc left) i last) (b ∷ cuts p xs n left (i + 1) b)
                  (ground (
                    arith,
                    serves.size,
                    search_from_found p xs t c (omega arith) at,
                    saturating_add_lem c (length p),
                  ))
                  (ground arith)
                  (and_ok-Settles source xs (loop left (i + 1) b) (λ bs. done (ok (b ∷ bs)))
                    (cuts p xs n left (i + 1) b) (b ∷ cuts p xs n left (i + 1) b) (rest b)
                    (inl refl))
          ]
        ]

  pub buffered_loop-Settles :
      (left i last : ℕ)
      → i + left ≤ n
      → Settles source xs (loop left i last) (cuts p xs n left i last)
  unfolding buffered_loop cuts snap_cut ends_at
  buffered_loop-Settles zero i last h = inl refl
  buffered_loop-Settles (suc left) i last h =
      let t = length xs * i / n in
      let below : t < length xs = target_lt [] xs n i (omega arith) capped in
      let target : ideal_target source.len n i ≡ t =
        rw serves.size (ideal_target_lem xs n i small (omega arith) capped) in
      let rest : (b : ℕ) → Settles source xs (loop left (i + 1) b) (cuts p xs n left (i + 1) b) =
        λ b. buffered_loop-Settles left (i + 1) b (omega arith) in
      let tail = drop (t - length p) xs in
      let exact = slices_equal-take p tail (length p) refl in
      elim (Bool-cases (leb t last)) [
        | inl past ↦
            Settles-eq source xs (loop (suc left) i last) (loop left (i + 1) last)
              (cuts p xs n (suc left) i last) (cuts p xs n left (i + 1) last)
              (ground (arith, target)) (ground arith) (rest last)
        | inr ahead ↦ elim (Bool-cases (leb (length p) t)) [
          | inr shallow ↦
              forward_round left i last h (ground arith) (ground arith) (ground (arith, target))
                rest
          | inl deep ↦
              elim (fill-Settles source xs serves (suc (length p)) (t - length p) (length p) 0
                (ground arith) (omega arith) (omega arith)) [
                  | inr (e, failed, f) ↦ inr (e, ground (arith, target), f)
                  | inl filled ↦ elim (Bool-cases (ends_at p xs t)) [
                    | inr inexact ↦
                        forward_round left i last h (ground arith) inexact
                          (ground (
                            arith,
                            target,
                            exact,
                            length-drop (t - length p) xs,
                            length-take (length p) tail,
                          ))
                          rest
                    | inl behind ↦
                        Settles-eq source xs (loop (suc left) i last) (pushed left i t)
                          (cuts p xs n (suc left) i last) (t ∷ cuts p xs n left (i + 1) t)
                          (ground (
                            arith,
                            target,
                            exact,
                            length-drop (t - length p) xs,
                            length-take (length p) tail,
                          ))
                          (ground arith)
                          (and_ok-Settles source xs (loop left (i + 1) t) (λ bs. done (ok (t ∷ bs)))
                            (cuts p xs n left (i + 1) t) (t ∷ cuts p xs n left (i + 1) t) (rest t)
                            (inl refl))
                  ]
                ]
        ]
      ]
