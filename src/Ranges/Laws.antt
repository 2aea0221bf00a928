-- ===== src/Ranges/Laws.antt =====
-- What a covering plan gives: its parts make up the file, and there are no more of them than bytes.
use mmap_chunker_core.Base.{
  ℕ, zero, suc, ◌+◌, ◌-◌, ◌≤◌, ◌<◌, ◌≡◌, sym, ap, ◌∙◌, arith, List, [], ◌∷◌, ◌++◌, take, drop,
  length, take-append-drop, drop-drop, drop_congr, drop_all, get_elem?, some,
}
use mmap_chunker_core.Ranges.{Range, Covers, parts, concat}

pub Covers-le : (a b : ℕ) (rs : List Range) → Covers a b rs → a ≤ b
Covers-le a b [] c = omega arith
Covers-le a b ((start, end) ∷ rs) (e, lt, c) = omega (arith, Covers-le end b rs c)

-- Every range of a covering plan is a non-empty part of the file.
pub Covers-get_elem? :
    (a b : ℕ) (rs : List Range) (i start end : ℕ)
    → Covers a b rs
    → get_elem? rs i ≡ some (start, end)
    → (a ≤ start) × (start < end) × (end ≤ b)
Covers-get_elem? a b [] i start end c h = cc
Covers-get_elem? a b ((s, e) ∷ rs) zero start end c h = ground (arith, Covers-le e b rs)
Covers-get_elem? a b ((s, e) ∷ rs) (suc i) start end c h =
    ground (arith, Covers-get_elem? e b rs i start end)

pub Covers-length-le : (a b : ℕ) (rs : List Range) → Covers a b rs → length rs ≤ b - a
Covers-length-le a b [] c = omega arith
Covers-length-le a b ((start, end) ∷ rs) (e, lt, c) =
    omega (arith, Covers-length-le end b rs c, Covers-le end b rs c)

-- The parts of a covering plan, in order, are the bytes of the file.
pub concat-parts :
    (xs : List ℕ) (a : ℕ) (rs : List Range)
    → Covers a (length xs) rs
    → concat (parts xs rs) ≡ drop a xs
concat-parts xs a [] c = sym (drop_all xs a (omega arith))
concat-parts xs a ((start, end) ∷ rs) (e, lt, c) =
    rw (concat-parts xs end rs c, e)
      (ap (λ t. take (end - a) (drop a xs) ++ t)
          (drop_congr xs end (a + (end - a)) (omega arith) ∙ sym (drop-drop (end - a) a xs))
        ∙ take-append-drop (end - a) (drop a xs))
