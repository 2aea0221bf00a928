-- ===== src/Cli/Logical/Mapped.antt =====
-- `project_logical_target` over mapped files: with the search states that the loop leaves, it gives the
-- reference cut.
use mmap_chunker_core.Base.{
  ℕ, zero, suc, ◌+◌, ◌-◌, ◌≤◌, ◌<◌, ◌≡◌, refl, ◌∙◌, arith, List, [], ◌∷◌, length, All-get_elem?,
  get_elem?, get_elem?_lt, some, Bool-cases, inl, inr, ◌⊎◌, done, ok, All, usize_max,
}
use mmap_chunker_core.Slice.{Slice, len, IsSlice}
use mmap_chunker_core.Scanner.Chunks.Laws.{IsDelimiter}
use mmap_chunker_core.Scanner.Partition.Reference.{snap_cut, snap_cut_bounds}
use mmap_chunker_core.Cli.Boundary.{BoundarySearchState, settled}
use mmap_chunker_core.Cli.Boundary.Laws.{
  IsBehind, next_record_boundary_lem, next_record_boundary_pattern_lem,
}
use mmap_chunker_core.Cli.Logical.{contains, map, put, local_boundary, project_logical_target}
use mmap_chunker_core.Cli.Logical.Reference.{total, sums, logical_cut}
use mmap_chunker_core.Cli.Logical.Projection.{locate, contains-logical_cut}
use mmap_chunker_core.Cli.Logical.Rounds.{Projects}

module _ {ℓ} {A : Type ℓ} where
  length-put : (xs : List A) (i : ℕ) (a : A) → length (put xs i a) ≡ length xs
  length-put [] i a = refl
  length-put (x ∷ xs) zero a = refl
  length-put (x ∷ xs) (suc i) a = omega (arith, length-put xs i a)

  get_elem?-put :
      (xs : List A) (i j : ℕ) (a b : A)
      → get_elem? (put xs i a) j ≡ some b
      → ((i ≡ j) × (a ≡ b)) ⊎ (get_elem? xs j ≡ some b)
  get_elem?-put [] i j a b h = cc
  get_elem?-put (x ∷ xs) zero zero a b h = inl (refl, cc)
  get_elem?-put (x ∷ xs) zero (suc j) a b h = inr h
  get_elem?-put (x ∷ xs) (suc i) zero a b h = inr h
  get_elem?-put (x ∷ xs) (suc i) (suc j) a b h = elim (get_elem?-put xs i j a b h) [
    | inl (e, same) ↦ inl (omega arith, same)
    | inr e ↦ inr e
  ]

-- The bytes of the mapped files.
abbrev pub contents : List Slice → List (List ℕ)
contents sources = map (λ (source : Slice). source.bytes) sources

get_elem?-contents :
    (sources : List Slice) (k : ℕ) (xs : List ℕ)
    → get_elem? (contents sources) k ≡ some xs
    → (s : Slice) × (get_elem? sources k ≡ some s) × (s.bytes ≡ xs) × (k < length sources)
get_elem?-contents [] k xs h = cc
get_elem?-contents (s ∷ sources) zero xs h = (s, refl, cc, omega arith)
get_elem?-contents (s ∷ sources) (suc k) xs h =
    let (t, at, same, below) = get_elem?-contents sources k xs h in (t, at, same, omega arith)

local_boundary_lem :
    (p : List ℕ) (s : Slice) (t : ℕ) (state : BoundarySearchState)
    → IsDelimiter p
    → IsSlice s
    → IsBehind state t
    → 0 < t
    → t < len s
    → let b = snap_cut p s.bytes t in local_boundary p s t state ≡ done (ok (b, settled b))
unfolding local_boundary
local_boundary_lem [] s t state del valid behind pos inside = absurd (omega (arith, del.nonempty))
local_boundary_lem (d ∷ []) s t state del valid behind pos inside =
    rw (next_record_boundary_lem s valid t state behind inside d pos) refl
local_boundary_lem (d ∷ e ∷ q) s t state del valid behind pos inside =
    ground (arith, next_record_boundary_pattern_lem s valid t state behind inside (d ∷ e ∷ q))

module _ (p : List ℕ) (sources : List Slice) where
  -- Every state stands behind the targets that are still to come.
  pub record IsOnward (last : ℕ) (states : List BoundarySearchState) : Type 0 where
    pub one_each : length states ≡ length sources
    pub behind :
        (k b : ℕ) (state : BoundarySearchState) (t : ℕ)
        → get_elem? (sums 0 (contents sources)) k ≡ some b
        → get_elem? states k ≡ some state
        → last < b + t
        → IsBehind state t

  module _ (del : IsDelimiter p) (mapped : All IsSlice sources)
      (small : total (contents sources) ≤ usize_max) where
    pub project_logical_target-Projects :
        Projects
          (project_logical_target sources p (sums 0 (contents sources)))
          (logical_cut p (contents sources))
          (total (contents sources))
          IsOnward
          (λ e. ⊥)
    unfolding project_logical_target
    project_logical_target-Projects t last states inv ahead inside =
        let files = contents sources in
        elim (Bool-cases (contains t (sums 0 files))) [
          | inl boundary ↦
              let same = contains-logical_cut p files 0 t boundary in
              inl (states, ground (arith, same), ground arith)
          | inr interior ↦
              let (k, b, xs, lies) = locate p files 0 t (omega arith) (omega arith) interior in
              let (s, at, same, below) = get_elem?-contents sources k xs lies.file in
              let (state, kept) = get_elem?_lt states k (omega (arith, inv.one_each)) in
              let b_t = t - b in
              let cut = snap_cut p s.bytes b_t in
              let bounds = snap_cut_bounds p s.bytes b_t (ground (arith, lies.inside, same)) in
              let next =
                local_boundary_lem p s b_t state del (All-get_elem? IsSlice sources k s mapped at)
                  (inv.behind k b state b_t lies.prefix kept (omega (arith, lies.behind)))
                  (omega (arith, lies.behind)) (ground (arith, lies.inside, same)) in
              let whole : logical_cut p files t ≡ b + cut = ground (arith, lies.same, same) in
              inl (
                put states k (settled cut),
                ground (
                  arith, whole, lies.point, lies.prefix, at, kept, next, lies.within, lies.behind,
                  lies.inside, bounds, same,
                ),
                record {
                  one_each = length-put states k (settled cut) ∙ inv.one_each;
                  behind = λ j c other u pre found later.
                      elim (get_elem?-put states k j (settled cut) other found) [
                        | inl (here, settles) ↦
                            let base : b ≡ c = ground (arith, lies.prefix) in ground (arith, whole)
                        | inr there ↦
                            inv.behind j c other u pre there
                              (omega (arith, whole, bounds, lies.behind))
                      ];
                },
              )
        ]
