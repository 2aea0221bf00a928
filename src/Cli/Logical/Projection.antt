-- ===== src/Cli/Logical/Projection.antt =====
-- Where a logical target lies: at the beginning of a file, or inside one.
use mmap_chunker_core.Base.{
  ℕ, suc, ◌+◌, ◌-◌, ◌≤◌, ◌<◌, ◌≡◌, refl, arith, true, false, List, [], ◌∷◌, length, length-append,
  get_elem?, some, Bool-cases, inl, inr, ltb,
}
use mmap_chunker_core.Ranges.{concat}
use mmap_chunker_core.Scanner.Partition.Reference.{snap_cut, snap_cut_bounds}
use mmap_chunker_core.Cli.Logical.{contains, partition_point}
use mmap_chunker_core.Cli.Logical.Reference.{total, sums, logical_cut}

-- A file `xs` that begins at `b`, the `k`-th, with a target inside it.
pub record Lies (p : List ℕ) (files : List (List ℕ)) (base t k b : ℕ) (xs : List ℕ) : Type 0 where
  pub point : partition_point t (sums base files) ≡ suc k
  pub prefix : get_elem? (sums base files) k ≡ some b
  pub next : get_elem? (sums base files) (suc k) ≡ some (b + length xs)
  pub file : get_elem? files k ≡ some xs
  pub behind : b < t
  pub inside : t < b + length xs
  pub within : b + length xs ≤ base + total files
  pub same : base + logical_cut p files (t - base) ≡ b + snap_cut p xs (t - b)

partition_point_head :
    (files : List (List ℕ)) (base t : ℕ) → t < base → partition_point t (sums base files) ≡ 0
partition_point_head [] base t h = ground arith
partition_point_head (xs ∷ files) base t h = ground arith

contains-le : (files : List (List ℕ)) (base t : ℕ) → contains t (sums base files) ≡ true → base ≤ t
contains-le [] base t h = ground arith
contains-le (xs ∷ files) base t h = ground (arith, contains-le files (base + length xs) t)

sums_first : (base : ℕ) (files : List (List ℕ)) → get_elem? (sums base files) 0 ≡ some base
sums_first base [] = refl
sums_first base (xs ∷ files) = refl

module _ (p : List ℕ) where
  pub locate :
      (files : List (List ℕ)) (base t : ℕ)
      → base ≤ t
      → t < base + total files
      → contains t (sums base files) ≡ false
      → (k : ℕ) × (b : ℕ) × (xs : List ℕ) × Lies p files base t k b xs
  unfolding logical_cut
  locate [] base t h lt none_here = absurd (omega arith)
  locate (xs ∷ files) base t h lt none_here =
      let size = length-append xs (concat files) in
      let next = base + length xs in
      elim (Bool-cases (ltb t next)) [
        | inl here ↦ (
          0,
          base,
          xs,
          record {
            point = ground (arith, partition_point_head files next t);
            prefix = refl;
            next = sums_first next files;
            file = refl;
            behind = ground arith;
            inside = ground arith;
            within = omega arith;
            same = ground arith;
          },
        )
        | inr past ↦
            let (k, b, ys, lies) =
              locate files next t (ground arith) (omega arith) (ground arith) in
            (
              suc k,
              b,
              ys,
              record {
                point = ground (arith, lies.point);
                prefix = lies.prefix;
                next = lies.next;
                file = lies.file;
                behind = lies.behind;
                inside = lies.inside;
                within = omega (arith, lies.within);
                same = ground (arith, lies.same);
              },
            )
      ]

  pub contains-logical_cut :
      (files : List (List ℕ)) (base t : ℕ)
      → contains t (sums base files) ≡ true
      → base + logical_cut p files (t - base) ≡ t
  unfolding logical_cut
  contains-logical_cut [] base t h = ground arith
  contains-logical_cut (xs ∷ files) base t h = ground (
    arith,
    contains-le files (base + length xs) t,
    contains-logical_cut files (base + length xs) t,
  )

  pub logical_cut_bounds :
      (files : List (List ℕ)) (t : ℕ)
      → t < total files
      → (t ≤ logical_cut p files t) × (logical_cut p files t ≤ total files)
  unfolding logical_cut
  logical_cut_bounds [] t h = absurd (omega arith)
  logical_cut_bounds (xs ∷ files) t h = ground (
    arith,
    length-append xs (concat files),
    snap_cut_bounds p xs t,
    logical_cut_bounds files (t - length xs),
  )
