-- ===== src/Search/Laws.antt =====
-- Laws of the reference search: where it finds, what it passes over, when it finds nothing.
use mmap_chunker_core.Base.{
  ℕ, zero, suc, ◌+◌, ◌≤◌, ◌<◌, ◌≡◌, refl, sym, ap, arith, true, false, List, [], ◌∷◌, length, drop,
  Option, none, some,
}
use mmap_chunker_core.Base.{
  ◌==◌, if◌then◌else◌, get_elem?, take, ◌++◌, drop_cons, drop_congr, take-append-drop, length-take,
  length-drop, drop-drop,
}
use mmap_chunker_core.Search.{starts_with, shift, position, search}

pub shift-shift : (a b : ℕ) (o : Option ℕ) → shift a (shift b o) ≡ shift (a + b) o
shift-shift a b none = refl
shift-shift a b (some i) = ap (λ k. some k) (omega arith)

pub shift-zero : (o : Option ℕ) → shift 0 o ≡ o
shift-zero none = refl
shift-zero (some i) = ap (λ k. some k) (omega arith)

pub starts_with-le : (p xs : List ℕ) → starts_with p xs ≡ true → length p ≤ length xs
unfolding starts_with
starts_with-le [] xs h = omega arith
starts_with-le (p ∷ ps) [] h = cc
starts_with-le (p ∷ ps) (x ∷ xs) h = ground (arith, starts_with-le ps xs)

-- On a single byte the pattern search is the byte search.
pub search-singleton : (d : ℕ) (xs : List ℕ) → search (d ∷ []) xs ≡ position d xs
unfolding search position starts_with
search-singleton d [] = refl
search-singleton d (x ∷ xs) = ground (arith, search-singleton d xs)

-- A found pattern stands there whole.
pub search_found : (p xs : List ℕ) (i : ℕ) → search p xs ≡ some i → starts_with p (drop i xs) ≡ true
unfolding search
search_found p [] i h = cc
search_found p (x ∷ xs) zero h = ground arith
search_found p (x ∷ xs) (suc i) h = ground (arith, search_found p xs i)

-- No earlier offset holds the pattern.
pub search_first :
    (p xs : List ℕ) (i j : ℕ) → search p xs ≡ some i → j < i → starts_with p (drop j xs) ≡ false
unfolding search
search_first p [] i j h lt = cc
search_first p (x ∷ xs) zero j h lt = absurd (omega arith)
search_first p (x ∷ xs) (suc i) zero h lt = ground arith
search_first p (x ∷ xs) (suc i) (suc j) h lt = ground (arith, search_first p xs i j)

-- Where the search finds nothing the pattern stands nowhere.
pub search-none :
    (p xs : List ℕ) (j : ℕ) → search p xs ≡ none → j < length xs → starts_with p (drop j xs) ≡ false
unfolding search
search-none p [] j h lt = absurd (omega arith)
search-none p (x ∷ xs) zero h lt = ground arith
search-none p (x ∷ xs) (suc j) h lt = ground (arith, search-none p xs j)

-- A found pattern lies inside the bytes.
pub search_fits : (p xs : List ℕ) (i : ℕ) → search p xs ≡ some i → i + length p ≤ length xs
unfolding search
search_fits p [] i h = cc
search_fits p (x ∷ xs) zero h = ground (arith, starts_with-le p (x ∷ xs))
search_fits p (x ∷ xs) (suc i) h = ground (arith, search_fits p xs i)

-- The first offset that holds the pattern is what the search returns.
pub search_unique :
    (p xs : List ℕ) (i : ℕ)
    → i < length xs
    → starts_with p (drop i xs) ≡ true
    → ((j : ℕ) → j < i → starts_with p (drop j xs) ≡ false)
    → search p xs ≡ some i
unfolding search
search_unique p [] i lt h first = absurd (omega arith)
search_unique p (x ∷ xs) zero lt h first = ground arith
search_unique p (x ∷ xs) (suc i) lt h first =
    ground
      (arith, first 0, search_unique p xs i (omega arith) h (λ j q. first (suc j) (omega arith)))

-- A search that skips `k` offsets without the pattern.
pub search_skip :
    (p xs : List ℕ) (k : ℕ)
    → k ≤ length xs
    → ((j : ℕ) → j < k → starts_with p (drop j xs) ≡ false)
    → search p xs ≡ shift k (search p (drop k xs))
unfolding search
search_skip p xs zero le none_before = sym (shift-zero (search p xs))
search_skip p [] (suc k) le none_before = absurd (omega arith)
search_skip p (x ∷ xs) (suc k) le none_before = ground (
  arith,
  none_before 0,
  search_skip p xs k (omega arith) (λ j q. none_before (suc j) (omega arith)),
  shift-shift 1 k (search p (drop k xs)),
)

-- The search of the byte from offset `i` on, as an absolute offset.
abbrev pub rest : ℕ → List ℕ → ℕ → Option ℕ
rest d xs i = shift i (position d (drop i xs))

-- One comparison moves the search on by one.
pub rest_step :
    (d : ℕ) (xs : List ℕ) (i : ℕ) {b : ℕ}
    → get_elem? xs i ≡ some b
    → rest d xs i ≡ (if b == d then some i else rest d xs (i + 1))
unfolding position
rest_step d xs i e = ground (
  arith,
  drop_cons xs i e,
  drop_congr xs (suc i) (i + 1) (omega arith),
  shift-shift i 1 (position d (drop (suc i) xs)),
)

position-append :
    (d : ℕ) (xs ys : List ℕ)
    → position d (xs ++ ys)
      ≡ elim (position d xs) [ none ↦ shift (length xs) (position d ys) | some i ↦ some i ]
unfolding position
position-append d [] ys = sym (shift-zero (position d ys))
position-append d (x ∷ xs) ys =
    ground (arith, position-append d xs ys, shift-shift 1 (length xs) (position d ys))

pub position-lt : (d : ℕ) (xs : List ℕ) (i : ℕ) → position d xs ≡ some i → i < length xs
unfolding position
position-lt d [] i h = cc
position-lt d (x ∷ xs) zero h = omega arith
position-lt d (x ∷ xs) (suc i) h = ground (arith, position-lt d xs i)

-- Comparing `n` bytes at once moves the search on by `n`.
pub rest_block :
    (d : ℕ) (xs : List ℕ) (i n : ℕ)
    → i + n ≤ length xs
    → rest d xs i
      ≡ elim (position d (take n (drop i xs))) [ none ↦ rest d xs (i + n) | some j ↦ some (i + j) ]
rest_block d xs i n h = ground (
  arith,
  ap (position d) (take-append-drop n (drop i xs)),
  position-append d (take n (drop i xs)) (drop n (drop i xs)),
  length-take n (drop i xs),
  length-drop i xs,
  drop-drop n i xs,
  shift-shift i n (position d (drop (i + n) xs)),
)
