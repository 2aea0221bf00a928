-- ===== src/Search/From.antt =====
-- The pattern search from an offset on, as an absolute offset, and how it moves.
use mmap_chunker_core.Base.{
  ℕ, zero, suc, ◌+◌, ◌-◌, ◌≤◌, ◌<◌, ◌≡◌, refl, arith, true, false, List, [], ◌∷◌, length, drop,
  drop_cons, drop_congr, drop-drop, drop_all, length-drop, get_elem?_lt, Option, none, some,
  Option-cases, inl, inr,
}
use mmap_chunker_core.Search.{starts_with, shift, position, search}
use mmap_chunker_core.Search.Laws.{
  shift-shift, shift-zero, search_skip, search_fits, search_found, search_first, position-lt,
}

abbrev pub search_from : List ℕ → List ℕ → ℕ → Option ℕ
search_from p xs i = shift i (search p (drop i xs))

pub search_from-zero : (p xs : List ℕ) → search_from p xs 0 ≡ search p xs
search_from-zero p xs = shift-zero (search p xs)

-- A pattern does not fit in fewer bytes.
pub search_short : (p xs : List ℕ) → length xs < length p → search p xs ≡ none
search_short p xs h = elim (Option-cases (search p xs)) [
  | inl e ↦ e
  | inr (i, e) ↦ absurd (omega (arith, search_fits p xs i e))
]

pub search_from_short :
    (p xs : List ℕ) (i : ℕ) → i ≤ length xs → length xs < i + length p → search_from p xs i ≡ none
search_from_short p xs i h k =
    rw (search_short p (drop i xs) (omega (arith, length-drop i xs))) refl

pub search_from_end : (p xs : List ℕ) (i : ℕ) → length xs ≤ i → search_from p xs i ≡ none
unfolding search
search_from_end p xs i h = rw (drop_all xs i h) refl

-- Where the first byte of the pattern does not stand the pattern does not.
position_none : (d : ℕ) (ps xs : List ℕ) → position d xs ≡ none → search (d ∷ ps) xs ≡ none
unfolding position search starts_with
position_none d ps [] h = refl
position_none d ps (x ∷ xs) h = ground (arith, position_none d ps xs)

position_first :
    (d : ℕ) (ps xs : List ℕ) (r j : ℕ)
    → position d xs ≡ some r
    → j < r
    → starts_with (d ∷ ps) (drop j xs) ≡ false
unfolding position starts_with
position_first d ps [] r j h lt = cc
position_first d ps (x ∷ xs) zero j h lt = absurd (omega arith)
position_first d ps (x ∷ xs) (suc r) zero h lt = ground arith
position_first d ps (x ∷ xs) (suc r) (suc j) h lt = ground (arith, position_first d ps xs r j)

pub search_from_skip :
    (p xs : List ℕ) (i k : ℕ)
    → i + k ≤ length xs
    → ((j : ℕ) → j < k → starts_with p (drop (i + j) xs) ≡ false)
    → search_from p xs i ≡ search_from p xs (i + k)
search_from_skip p xs i k h none_before = ground (
  arith,
  search_skip p (drop i xs) k (omega (arith, length-drop i xs))
      (λ j q. rw (drop-drop j i xs) (none_before j q)),
  drop-drop k i xs,
  shift-shift i k (search p (drop (i + k) xs)),
)

-- A candidate by the first byte: nothing is passed over before it.
pub search_from_candidate :
    (d : ℕ) (ps xs : List ℕ) (i r : ℕ)
    → i ≤ length xs
    → position d (drop i xs) ≡ some r
    → search_from (d ∷ ps) xs i ≡ search_from (d ∷ ps) xs (i + r)
search_from_candidate d ps xs i r h e =
    search_from_skip (d ∷ ps) xs i r
      (omega (arith, position-lt d (drop i xs) r e, length-drop i xs))
      (λ j q. rw (← drop-drop j i xs) (position_first d ps (drop i xs) r j e q))

pub search_from_no_candidate :
    (d : ℕ) (ps xs : List ℕ) (i : ℕ)
    → position d (drop i xs) ≡ none
    → search_from (d ∷ ps) xs i ≡ none
search_from_no_candidate d ps xs i e = rw (position_none d ps (drop i xs) e) refl

pub search_from_hit :
    (p xs : List ℕ) (i : ℕ)
    → i < length xs
    → starts_with p (drop i xs) ≡ true
    → search_from p xs i ≡ some i
unfolding search
search_from_hit p xs i h e = let (b, at) = get_elem?_lt xs i h in ground (arith, drop_cons xs i at)

pub search_from_miss :
    (p xs : List ℕ) (i : ℕ)
    → i < length xs
    → starts_with p (drop i xs) ≡ false
    → search_from p xs i ≡ search_from p xs (i + 1)
search_from_miss p xs i h e =
    search_from_skip p xs i 1 (omega arith) (λ j q. rw (drop_congr xs (i + j) i (omega arith)) e)

-- What a search from an offset has found.
pub search_from_found :
    (p xs : List ℕ) (t c : ℕ)
    → t ≤ length xs
    → search_from p xs t ≡ some c
    → (t ≤ c)
      × (c + length p ≤ length xs)
      × (starts_with p (drop c xs) ≡ true)
      × ((j : ℕ) → t ≤ j → j < c → starts_with p (drop j xs) ≡ false)
search_from_found p xs t c h e = elim (Option-cases (search p (drop t xs))) [
  | inl none_left ↦ absurd (ground arith)
  | inr (i, f) ↦
      let at : t + i ≡ c = ground arith in
      (
        omega arith,
        omega (arith, search_fits p (drop t xs) i f, length-drop t xs),
        rw (← at, ← drop-drop i t xs) (search_found p (drop t xs) i f),
        λ j q r.
            rw (drop_congr xs j (t + (j - t)) (omega arith), ← drop-drop (j - t) t xs)
              (search_first p (drop t xs) i (j - t) f (omega arith)),
      )
]
