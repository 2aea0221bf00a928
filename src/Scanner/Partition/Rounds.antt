-- ===== src/Scanner/Partition/Rounds.antt =====
-- Any planner loop whose rounds search as the reference does computes the reference cuts: the byte
-- planner, the pattern planner, and the buffered planner of src/source.rs.
use mmap_chunker_core.Base.{
  ℕ, zero, suc, ◌+◌, ◌*◌, ◌/◌, ◌≤◌, ◌<◌, ◌≡◌, arith, List, [], ◌∷◌, length, none, some,
  Option-cases, Bool-cases, inl, inr, leb, leb→le, leb→lt, if◌then◌else◌, ◌>>=◌, Run, done,
}
use mmap_chunker_core.Search.From.{search_from}
use mmap_chunker_core.Scanner.Partition.Reference.{ends_at, snap_cut, cuts, cuts_end}

-- A boundary is pushed and the loop goes on from it.
abbrev pub push : (ℕ → Run (List ℕ)) → ℕ → Run (List ℕ)
push loop b = loop b >>= λ bs. done (b ∷ bs)

-- A round at a target past the last boundary: without a delimiter there the loop breaks.
abbrev pub cut_round : List ℕ → List ℕ → ℕ → (ℕ → Run (List ℕ)) → Run (List ℕ)
cut_round p xs t loop = if ends_at p xs t then push loop t else elim (search_from p xs t) [
  | none ↦ done (length xs ∷ [])
  | some c ↦ push loop (c + length p)
]

module _ (p xs : List ℕ) (n : ℕ) (capped : n ≤ length xs) (loop : ℕ → ℕ → ℕ → Run (List ℕ))
    (stops : (i last : ℕ) → loop zero i last ≡ done [])
    (skips : (left i last : ℕ)
      → i + suc left ≤ n
      → length xs * i / n ≤ last
      → loop (suc left) i last ≡ loop left (i + 1) last)
    (rounds : (left i last : ℕ)
      → i + suc left ≤ n
      → last < length xs * i / n
      → loop (suc left) i last ≡ cut_round p xs (length xs * i / n) (loop left (i + 1))) where
  pub loop-cuts :
      (left i last : ℕ) → i + left ≤ n → loop left i last ≡ done (cuts p xs n left i last)
  unfolding cuts snap_cut
  loop-cuts zero i last h = stops i last
  loop-cuts (suc left) i last h =
      let t = length xs * i / n in
      elim (Bool-cases (leb t last)) [
        | inl past ↦ ground (
          arith,
          skips left i last h (leb→le t last past),
          loop-cuts left (i + 1) last (omega arith),
        )
        | inr ahead ↦ elim (Option-cases (search_from p xs t)) [
          | inl e ↦ ground (
            arith,
            rounds left i last h (leb→lt t last ahead),
            loop-cuts left (i + 1) t (omega arith),
            cuts_end p xs n left (i + 1) (omega arith) capped,
          )
          | inr (c, e) ↦ ground (
            arith,
            rounds left i last h (leb→lt t last ahead),
            loop-cuts left (i + 1) t (omega arith),
            loop-cuts left (i + 1) (c + length p) (omega arith),
          )
        ]
      ]
