-- ===== src/Cli/Logical/Rounds.antt =====
-- The loop over the targets, for any way to project a target: it computes the reference cuts, or stops
-- with the message of a projection.
use native.Mathlib.Nat.{mul-le-mul, mul-le-mul_left, div-lt_iff_lt-mul}
use mmap_chunker_core.Base.{
  ℕ, zero, suc, ◌+◌, ◌*◌, ◌/◌, ◌≤◌, ◌<◌, ◌≡◌, refl, arith, Bool-cases, inl, inr, ◌⊎◌, ◌==◌, leb,
  done, ok, err, usize_max,
}
use mmap_chunker_core.Cli.{Attempt, Message, usize_to_u128}
use mmap_chunker_core.Cli.Logical.{logical_target, cut_loop}
use mmap_chunker_core.Cli.Logical.Reference.{inner_cuts}

-- The run returns `a`, or stops with a message that `Bad` allows.
abbrev pub Ends : {A : Type 0} → (Message → Type 0) → Attempt A → A → Type 0
Ends Bad run a = (run ≡ done (ok a)) ⊎ ((e : Message) × (run ≡ done (err e)) × Bad e)

pub target_lt : (size n i : ℕ) → i < n → n ≤ size → size * i / n < size
target_lt size n i h k =
    (div-lt_iff_lt-mul {k = n} {x = size * i} {y = size} (omega arith)).1
      (omega (arith, mul-le-mul_left size h))

-- No target overflows while the dataset is addressable.
pub logical_target_lem :
    (size n i : ℕ)
    → size ≤ usize_max
    → i < n
    → n ≤ size
    → logical_target size i n ≡ done (ok (size * i / n))
unfolding logical_target usize_to_u128
logical_target_lem size n i small lt le =
    let big : size * i ≤ usize_max * usize_max = mul-le-mul {m₂ = usize_max} small (omega arith) in
    ground arith

module _ {State : Type 0} (project : ℕ → State → Attempt (ℕ × State)) (cut : ℕ → ℕ) (size : ℕ)
    (Inv : ℕ → State → Type 0) (Bad : Message → Type 0) where
  -- What a projection is to do with a target past the last cut.
  abbrev pub Projects : Type 0
  Projects =
      (t last : ℕ) (state : State)
      → Inv last state
      → last < t
      → t < size
      → ((state' : State) × (project t state ≡ done (ok (cut t, state'))) × Inv (cut t) state')
        ⊎ ((e : Message) × (project t state ≡ done (err e)) × Bad e)

  module _ (projects : Projects) (onward : (t : ℕ) → t < size → t ≤ cut t)
      (small : size ≤ usize_max) (n : ℕ) (capped : n ≤ size) where
    pub cut_loop-inner_cuts :
        (left i last : ℕ) (state : State)
        → i + left ≤ n
        → Inv last state
        → Ends Bad (cut_loop project size n left i last state) (inner_cuts cut size n left i last)
    unfolding cut_loop inner_cuts
    cut_loop-inner_cuts zero i last state h inv = inl refl
    cut_loop-inner_cuts (suc left) i last state h inv =
        let t = size * i / n in
        let target = logical_target_lem size n i small (omega arith) capped in
        let below : t < size = target_lt size n i (omega arith) capped in
        elim (Bool-cases (leb t last)) [
          | inl past ↦
              rw (target, past) (cut_loop-inner_cuts left (i + 1) last state (omega arith) inv)
          | inr ahead ↦ elim (projects t last state inv (ground arith) below) [
            | inr (e, failed, bad) ↦ inr (e, ground arith, bad)
            | inl (state', projected, inv') ↦
                let on : t ≤ cut t = onward t below in
                elim (Bool-cases (cut t == size)) [
                  | inl end ↦ inl (ground arith)
                  | inr inside ↦
                      elim (cut_loop-inner_cuts left (i + 1) (cut t) state' (omega arith) inv') [
                        | inl rest ↦ inl (ground arith)
                        | inr (e, failed, bad) ↦ inr (e, ground arith, bad)
                      ]
                ]
          ]
        ]
