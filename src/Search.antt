-- ===== src/Search.antt =====
-- What it means that a delimiter occurs in a run of bytes: the reference against which the searches
-- of src/scanner.rs and src/source.rs are proved.
pub mod Laws
pub mod From
pub mod Prefix
use mmap_chunker_core.Base.{
  ℕ, zero, suc, ◌+◌, ◌≡◌, refl, Bool, true, false, ◌&&◌, List, [], ◌∷◌, Option, none, some, ◌==◌,
  if◌then◌else◌,
}

-- `slice.starts_with(pattern)`, the pattern first.
unfoldable pub starts_with : List ℕ → List ℕ → Bool
starts_with [] xs = true
starts_with (p ∷ ps) [] = false
starts_with (p ∷ ps) (x ∷ xs) = (x == p) && starts_with ps xs

-- An offset found in a part that begins `k` bytes later.
abbrev pub shift : ℕ → Option ℕ → Option ℕ
shift k none = none
shift k (some i) = some (k + i)

-- The least offset at which the byte `d` stands.
unfoldable pub position : ℕ → List ℕ → Option ℕ
position d [] = none
position d (x ∷ xs) = if x == d then some 0 else shift 1 (position d xs)

-- The least offset at which the pattern `p` stands whole. No pattern stands at the end.
unfoldable pub search : List ℕ → List ℕ → Option ℕ
search p [] = none
search p (x ∷ xs) = if starts_with p (x ∷ xs) then some 0 else shift 1 (search p xs)
