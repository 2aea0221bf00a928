-- ===== src/Search/Prefix.antt =====
-- Searching a prefix of the bytes: what is found there is what is found in all of them.
use mmap_chunker_core.Base.{
  ◌++◌, ◌-◌, max, sym, ap, ◌∙◌, drop-drop, length-drop, ℕ, zero, suc, ◌+◌, ◌≤◌, ◌<◌, ◌≡◌, refl,
  arith, true, false, List, [], ◌∷◌, length, take, drop, length-take, some, none, Option-cases, inl,
  inr,
}
use mmap_chunker_core.Search.{starts_with, search}
use mmap_chunker_core.Search.From.{search_from, search_from_skip}
use mmap_chunker_core.Search.Laws.{search_fits}

starts_with-take :
    (p ys : List ℕ) (w : ℕ) → length p ≤ w → starts_with p (take w ys) ≡ starts_with p ys
unfolding starts_with
starts_with-take [] ys w h = refl
starts_with-take (q ∷ p) ys zero h = absurd (omega arith)
starts_with-take (q ∷ p) [] (suc w) h = refl
starts_with-take (q ∷ p) (y ∷ ys) (suc w) h = ground (arith, starts_with-take p ys w)

starts_with-take-true :
    (p ys : List ℕ) (w : ℕ) → starts_with p (take w ys) ≡ true → starts_with p ys ≡ true
unfolding starts_with
starts_with-take-true [] ys w h = refl
starts_with-take-true (q ∷ p) ys zero h = cc
starts_with-take-true (q ∷ p) [] (suc w) h = h
starts_with-take-true (q ∷ p) (y ∷ ys) (suc w) h = ground (arith, starts_with-take-true p ys w)

pub search-take-some :
    (p ys : List ℕ) (w r : ℕ) → search p (take w ys) ≡ some r → search p ys ≡ some r
unfolding search
search-take-some p [] zero r h = h
search-take-some p [] (suc w) r h = h
search-take-some p (y ∷ ys) zero r h = cc
search-take-some p (y ∷ ys) (suc w) r h = elim (Option-cases (search p (take w ys))) [
  | inl e ↦ ground (arith, starts_with-take-true p (y ∷ ys) (suc w))
  | inr (i, e) ↦ ground (
    arith,
    starts_with-take-true p (y ∷ ys) (suc w),
    starts_with-take p (y ∷ ys) (suc w),
    search_fits p (take w ys) i e,
    length-take w ys,
    search-take-some p ys w i,
  )
]

-- A pattern that is not in a prefix stands at no offset from which it fits into the prefix.
pub search-take-none :
    (p ys : List ℕ) (w j : ℕ)
    → 0 < length p
    → w ≤ length ys
    → search p (take w ys) ≡ none
    → j + length p ≤ w
    → starts_with p (drop j ys) ≡ false
unfolding search
search-take-none p ys zero j pos fits h k = absurd (omega arith)
search-take-none p [] (suc w) j pos fits h k = absurd (omega arith)
search-take-none p (y ∷ ys) (suc w) zero pos fits h k =
    ground (arith, starts_with-take p (y ∷ ys) (suc w))
search-take-none p (y ∷ ys) (suc w) (suc j) pos fits h k = ground (arith, search-take-none p ys w j)

take_none : (n : ℕ) → take {A = ℕ} n [] ≡ []
take_none zero = refl
take_none (suc n) = refl

pub take_whole : (ys : List ℕ) (n : ℕ) → length ys ≤ n → take n ys ≡ ys
take_whole [] n h = take_none n
take_whole (y ∷ ys) zero h = absurd (omega arith)
take_whole (y ∷ ys) (suc n) h = ap (λ zs. y ∷ zs) (take_whole ys n (omega arith))

pub take_add : (k j : ℕ) (ys : List ℕ) → take (k + j) ys ≡ take k ys ++ take j (drop k ys)
take_add zero j ys = let e : 0 + j ≡ j = omega arith in ap (λ n. take n ys) e
take_add (suc k) j [] = take_none (suc k + j) ∙ sym (take_none j)
take_add (suc k) j (y ∷ ys) =
    let e : suc k + j ≡ suc (k + j) = omega arith in
    ap (λ n. take n (y ∷ ys)) e ∙ ap (λ zs. y ∷ zs) (take_add k j ys)

module _ (xs p : List ℕ) (pos : 0 < length p) where
  -- A probe that ends before the file, and in which the pattern is not found, rules out the offsets up
  -- to its overlap.
  pub probe_miss :
      (offset w : ℕ)
      → length p ≤ w
      → offset + w ≤ length xs
      → search p (take w (drop offset xs)) ≡ none
      → search_from p xs offset ≡ search_from p xs (offset + max (w - (length p - 1)) 1)
  probe_miss offset w holds inside none_here =
      search_from_skip p xs offset (max (w - (length p - 1)) 1) (omega arith) (λ j lt.
        rw (← drop-drop j offset xs) (
          search-take-none p (drop offset xs) w j pos (omega (arith, length-drop offset xs))
            none_here (omega arith)))
