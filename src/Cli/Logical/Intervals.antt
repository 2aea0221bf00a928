-- ===== src/Cli/Logical/Intervals.antt =====
-- `ranges_for_interval` gives the part of each file that lies in the interval.
use mmap_chunker_core.Base.{
  ℕ, zero, suc, ◌+◌, ◌-◌, ◌≤◌, ◌<◌, ◌≡◌, refl, sym, ap, ◌∙◌, arith, min, max, List, [], ◌∷◌, ◌++◌,
  length, take, drop, take_congr, drop_congr, get_elem?, get_elem?-drop, get_elem?_congr,
  length-append, length-drop, drop-drop, some, Bool-cases, inl, inr, leb, leb→le, drop-nil, done,
  ok, usize_max,
}
use mmap_chunker_core.Ranges.{concat, part}
use mmap_chunker_core.Cli.Logical.{range_loop, ranges_for_interval, map}
use mmap_chunker_core.Cli.Logical.Reference.{total, sums, split, file_at, row_bytes}

sums_head : (base : ℕ) (files : List (List ℕ)) → get_elem? (sums base files) 0 ≡ some base
sums_head base [] = refl
sums_head base (xs ∷ files) = refl

-- Where the prefixes from `i` on are the sums of the files from `i` on.
prefix_at :
    (prefixes : List ℕ) (i base : ℕ) (files : List (List ℕ))
    → drop i prefixes ≡ sums base files
    → get_elem? prefixes i ≡ some base
prefix_at prefixes i base files e =
    get_elem?_congr prefixes i (i + 0) (omega arith)
    ∙ (sym (get_elem?-drop i 0 prefixes) ∙ (ap (λ ps. get_elem? ps 0) e ∙ sums_head base files))

prefixes_next :
    (prefixes : List ℕ) (i base : ℕ) (xs : List ℕ) (files : List (List ℕ))
    → drop i prefixes ≡ base ∷ sums (base + length xs) files
    → drop (i + 1) prefixes ≡ sums (base + length xs) files
prefixes_next prefixes i base xs files e = sym (drop-drop 1 i prefixes) ∙ ap (drop 1) e

module _ (start end : ℕ) (prefixes : List ℕ) where
  range_loop-split :
      (files : List (List ℕ)) (i base : ℕ)
      → drop i prefixes ≡ sums base files
      → base + total files ≤ usize_max
      → range_loop start end prefixes (length files) i ≡ done (ok (split start end i base files))
  unfolding range_loop split
  range_loop-split [] i base e small = refl
  range_loop-split (xs ∷ files) i base e small =
      let next = prefixes_next prefixes i base xs files e in
      let size = length-append xs (concat files) in
      ground (
        arith,
        size,
        prefix_at prefixes i base (xs ∷ files) e,
        prefix_at prefixes (i + 1) (base + length xs) files next,
        range_loop-split files (i + 1) (base + length xs) next (omega arith),
      )

  pub ranges_for_interval-split :
      (files : List (List ℕ))
      → prefixes ≡ sums 0 files
      → total files ≤ usize_max
      → start < end
      → ranges_for_interval start end prefixes (length files)
        ≡ done (ok (split start end 0 0 files))
  unfolding ranges_for_interval
  ranges_for_interval-split files e small lt =
      ground (arith, range_loop-split files 0 0 e (omega arith))

module _ {ℓ} {A : Type ℓ} where
  take-nil : (n : ℕ) → take {A = A} n [] ≡ []
  take-nil zero = refl
  take-nil (suc n) = refl

  take-append : (n : ℕ) (xs ys : List A) → take n (xs ++ ys) ≡ take n xs ++ take (n - length xs) ys
  take-append n [] ys = rw (take-nil n) (take_congr ys n (n - 0) (omega arith))
  take-append zero (x ∷ xs) ys = ground (arith, take_congr ys (0 - suc (length xs)) 0)
  take-append (suc n) (x ∷ xs) ys =
      ground (arith, take-append n xs ys, take_congr ys (n - length xs) (suc n - suc (length xs)))

  drop-append : (n : ℕ) (xs ys : List A) → drop n (xs ++ ys) ≡ drop n xs ++ drop (n - length xs) ys
  drop-append n [] ys = rw (drop-nil n) (drop_congr ys n (n - 0) (omega arith))
  drop-append zero (x ∷ xs) ys = ground (arith, drop_congr ys (0 - suc (length xs)) 0)
  drop-append (suc n) (x ∷ xs) ys =
      ground (arith, drop-append n xs ys, drop_congr ys (n - length xs) (suc n - suc (length xs)))

  -- Past the end there is nothing more to take.
  take_same :
      (n m : ℕ) (xs : List A) → min n (length xs) ≡ min m (length xs) → take n xs ≡ take m xs
  take_same zero zero xs e = refl
  take_same zero (suc m) [] e = refl
  take_same (suc n) zero [] e = refl
  take_same zero (suc m) (x ∷ xs) e = absurd (omega arith)
  take_same (suc n) zero (x ∷ xs) e = absurd (omega arith)
  take_same (suc n) (suc m) [] e = refl
  take_same (suc n) (suc m) (x ∷ xs) e = ap (λ t. x ∷ t) (take_same n m xs (omega arith))

pub file_at-drop :
    (files : List (List ℕ)) (i : ℕ) (xs : List ℕ) (rest : List (List ℕ))
    → drop i files ≡ xs ∷ rest
    → file_at files i ≡ xs
file_at-drop [] zero xs rest e = cc
file_at-drop [] (suc i) xs rest e = cc
file_at-drop (ys ∷ files) zero xs rest e = cc
file_at-drop (ys ∷ files) (suc i) xs rest e = file_at-drop files i xs rest e

module _ (start end : ℕ) (all : List (List ℕ)) where
  -- The parts of the files make up the part of the dataset.
  pub split-bytes :
      (files : List (List ℕ)) (i base : ℕ)
      → drop i all ≡ files
      → concat (map (row_bytes all) (split start end i base files))
        ≡ take (end - max start base) (drop (start - base) (concat files))
  unfolding split
  split-bytes [] i base e =
      rw (drop-nil {A = ℕ} (start - base), take-nil {A = ℕ} (end - max start base)) refl
  split-bytes (xs ∷ files) i base e =
      let rest = concat files in
      let a = start - base in
      let b = base + length xs in
      let n = end - max start base in
      let later = split-bytes files (i + 1) b (sym (drop-drop 1 i all) ∙ ap (drop 1) e) in
      let here : file_at all i ≡ xs = file_at-drop all i xs files e in
      let size : length (drop a xs) ≡ length xs - a = length-drop a xs in
      let divided : take n (drop a (xs ++ rest))
          ≡ take n (drop a xs) ++ take (end - max start b) (drop (start - b) rest) =
        rw
          (
            drop-append a xs rest,
            take-append n (drop a xs) (drop (a - length xs) rest),
            drop_congr rest (a - length xs) (start - b) (omega arith),
            take_congr (drop (start - b) rest) (n - length (drop a xs)) (end - max start b)
                (omega arith),
          )
          refl in
      rw (divided, ← later)
        (elim (Bool-cases (leb (min end b) (max start base))) [
          | inl outside ↦
              let none_here : take n (drop a xs) ≡ [] =
                take_same n 0 (drop a xs) (omega (arith, leb→le _ _ outside)) in
              rw (outside, none_here) refl
          | inr inside ↦
              let range = part xs (max start base - base, min end b - base) in
              let whole : range ≡ take n (drop a xs) =
                rw (drop_congr xs (max start base - base) a (omega arith)) (
                  take_same (min end b - base - (max start base - base)) n (drop a xs)
                    (omega arith)) in
              rw (inside, here, whole) refl
        ])
