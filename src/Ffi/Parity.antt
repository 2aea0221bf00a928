-- ===== src/Ffi/Parity.antt =====
-- The C surface beside `MmapChunker`: one file, one pin, the same calls.
use mathlib.Core.Path.{subst}
use mmap_chunker_core.Base.{
  ℕ, ◌≡◌, refl, ap, ◌∙◌, arith, List, none, some, Option-cases, true, false, done, Returns,
  Result-cases, ok, err, Io, if◌then◌else◌, inl, inr,
}
use mmap_chunker_core.Slice.{IsSlice}
use mmap_chunker_core.Plan.{ChunkPlan, empty}
use mmap_chunker_core.Pin.{Metadata, PinMismatch}
use mmap_chunker_core.Chunker.{MmapChunker, check_pinned, planned}
use mmap_chunker_core.Chunker.Ops.{
  Op, delimited, fixed_size, partition, partition_pattern, delimited_pattern, IsValidOp, plan_of,
  perform, outcome, perform_lem,
}
use mmap_chunker_core.Chunker.Laws.{IsValid, plan_of-IsValid}
use mmap_chunker_core.Ffi.{
  Message, identity_changed, report, cleared, set_plan, Engine, World, check_engine_pin,
}
use mmap_chunker_core.Ffi.Refinement.{
  Call, scan_chunks, scan_chunks_ex, scan_chunks_pattern, scan_fixed, partition_records,
  partition_records_pattern, request, asks_zero, delimiter_of, delimiter_of-IsDelimiter,
  IsValidCall, enter, decide, response, enter_lem,
}

-- An accepted call keeps the contract of the planner that it is sent to.
request-IsValidOp : (call : Call) (op : Op) → IsValidCall call → request call ≡ ok op → IsValidOp op
request-IsValidOp (scan_chunks size) op valid e =
    let same : delimited size 10 ≡ op = ground arith in subst IsValidOp same (omega arith)
request-IsValidOp (scan_chunks_ex size d) op valid e =
    let same : delimited size d ≡ op = ground arith in subst IsValidOp same valid
request-IsValidOp (scan_chunks_pattern size none n) op valid e = absurd (ground arith)
request-IsValidOp (scan_chunks_pattern size (some bytes) n) op valid e =
    elim (Result-cases (delimiter_of (some bytes) n)) [
      | inr (m, q) ↦ absurd (ground arith)
      | inl (pattern, q) ↦
          let same : delimited_pattern size pattern ≡ op = ground arith in
          subst IsValidOp same (delimiter_of-IsDelimiter bytes n pattern valid q)
    ]
request-IsValidOp (scan_fixed size) op valid e =
    let same : fixed_size size ≡ op = ground arith in subst IsValidOp same valid
request-IsValidOp (partition_records num d) op valid e =
    let same : partition num d ≡ op = ground arith in subst IsValidOp same valid
request-IsValidOp (partition_records_pattern num none n) op valid e = absurd (ground arith)
request-IsValidOp (partition_records_pattern num (some bytes) n) op valid e =
    elim (Result-cases (delimiter_of (some bytes) n)) [
      | inr (m, q) ↦ absurd (ground arith)
      | inl (pattern, q) ↦
          let same : partition_pattern num pattern ≡ op = ground arith in
          subst IsValidOp same (delimiter_of-IsDelimiter bytes n pattern valid q)
    ]

module _ {FilePath : Type 0} where
  -- The handle of the library on the same file, with the same plan and pin.
  abbrev pub library : Engine FilePath → MmapChunker FilePath
  library engine = record {
    mmap = engine.mmap;
    plan = engine.plan;
    pinned = engine.pin;
    pin_error = none;
  }

  -- The world of an engine and an error buffer.
  abbrev pub holding : Engine FilePath → List ℕ → World FilePath
  holding engine buf = record { handle = some engine; last_error = buf }

  -- The invariant of a handle: an engine that it holds is valid as the library's handle is.
  abbrev pub IsValidWorld : World FilePath → Type 0
  IsValidWorld w = (engine : Engine FilePath) → w.handle ≡ some engine → IsValid (library engine)

  module _ (text : Message → List ℕ) (metadata : FilePath → Io Metadata) where
    response-holds :
        (call : Call) (op : Op) (engine : Engine FilePath) (buf : List ℕ)
        → request call ≡ ok op
        → asks_zero op engine.mmap.bytes ≡ false
        → check_engine_pin metadata engine ≡ ok tt
        → response text metadata call (holding engine buf)
          ≡ set_plan text engine (cleared text (holding engine buf)) (plan_of op engine.mmap.bytes)
    response-holds call op engine buf accepted nonzero holds = ground arith

    response-tripped :
        (call : Call) (op : Op) (engine : Engine FilePath) (buf : List ℕ) (e : PinMismatch)
        → request call ≡ ok op
        → check_engine_pin metadata engine ≡ err e
        → response text metadata call (holding engine buf)
          ≡ (0, report text (identity_changed e) (cleared text (holding engine buf)))
    response-tripped call op engine buf e accepted tripped = ground arith

    outcome-holds :
        (op : Op) (engine : Engine FilePath)
        → check_engine_pin metadata engine ≡ ok tt
        → ((check_pinned metadata (library engine)).1 ≡ true)
          × (outcome metadata op (library engine)
              ≡ planned (library engine) (plan_of op engine.mmap.bytes))
    unfolding check_pinned check_engine_pin
    outcome-holds op engine holds = ground arith

    outcome-tripped :
        (op : Op) (engine : Engine FilePath) (e : PinMismatch)
        → check_engine_pin metadata engine ≡ err e
        → ((check_pinned metadata (library engine)).1 ≡ false)
          × (outcome metadata op (library engine)
              ≡ (0, record (library engine) { plan = empty; pin_error = some e }))
    unfolding check_pinned check_engine_pin
    outcome-tripped op engine e tripped = ground arith

    -- An accepted call on an engine and the request that it stands for on `MmapChunker`, with the same
    -- map, plan and pin and at the same time: both return, both answer the same count, both keep map and
    -- pin, and both have the same plan afterwards where the pin holds. Where it has tripped, the engine
    -- keeps its plan and the library handle has none.
    pub enter-perform :
        (call : Call) (op : Op) (engine : Engine FilePath) (buf : List ℕ)
        → IsValidCall call
        → request call ≡ ok op
        → asks_zero op engine.mmap.bytes ≡ false
        → IsSlice engine.mmap
        → Returns (perform metadata op (library engine)) (λ (n, c').
          Returns (enter text metadata call (holding engine buf)) (λ (m, w').
            (m ≡ n)
            × ((engine' : Engine FilePath) × (w'.handle ≡ some engine')
                × (engine'.mmap ≡ c'.mmap)
                × (engine'.pin ≡ c'.pinned)
                × (if (check_pinned metadata (library engine)).1
                    then engine'.plan ≡ c'.plan
                    else (engine'.plan ≡ engine.plan) × (c'.plan ≡ empty)))))
    enter-perform call op engine buf valid accepted nonzero mapped =
        let performed =
          perform_lem metadata op (library engine) (request-IsValidOp call op valid accepted)
            mapped in
        let entered = enter_lem text metadata call (holding engine buf) valid (λ e h.
          let same : engine ≡ e = ground arith in subst (λ x. IsSlice x.mmap) same mapped) in
        elim (Result-cases (check_engine_pin metadata engine)) [
          | inl (tt, holds) ↦
              let (fine, made) = outcome-holds op engine holds in
              rw
                (
                  performed ∙ ap done made,
                  entered ∙ ap done (response-holds call op engine buf accepted nonzero holds),
                  fine,
                )
                (
                  refl,
                  (record engine { plan = plan_of op engine.mmap.bytes }, refl, refl, refl, refl),
                )
          | inr (e, tripped) ↦
              let (trip, made) = outcome-tripped op engine e tripped in
              rw
                (
                  performed ∙ ap done made,
                  entered ∙ ap done (response-tripped call op engine buf e accepted tripped),
                  trip,
                )
                (refl, (engine, refl, refl, refl, (refl, refl)))
        ]

    decide-IsValid :
        (call : Call) (w : World FilePath) (engine : Engine FilePath) (plan : ChunkPlan)
        → IsValidCall call
        → IsValidWorld w
        → decide text metadata call w ≡ ok (engine, plan)
        → IsValid (library (record engine { plan = plan }))
    decide-IsValid call w engine plan valid v h = elim (Option-cases w.handle) [
      | inl p ↦ absurd (ground arith)
      | inr (e, p) ↦ elim (Result-cases (request call)) [
        | inr (m, q) ↦ absurd (ground arith)
        | inl (op, q) ↦
            let same : e ≡ engine = ground arith in
            let made : plan_of op engine.mmap.bytes ≡ plan = ground arith in
            subst (λ pl. IsValid (library (record engine { plan = pl }))) made
              (plan_of-IsValid metadata op (library engine) (request-IsValidOp call op valid q)
                ((v engine (p ∙ ap some same)).mapped))
      ]
    ]

    response-IsValidWorld :
        (call : Call) (w : World FilePath)
        → IsValidCall call
        → IsValidWorld w
        → IsValidWorld (response text metadata call w).1
    response-IsValidWorld call w valid v = elim (Result-cases (decide text metadata call w)) [
      | inr (m, p) ↦ rw (p, response) v
      | inl ((engine, plan), p) ↦
          rw (p, response)
            (λ e h.
              let same : record engine { plan = plan } ≡ e = ground arith in
              subst (λ x. IsValid (library x)) same (decide-IsValid call w engine plan valid v p))
    ]

    -- Every scan entry point keeps the invariant of its handle, whether it accepts the call or refuses it:
    -- the map is a slice, and the plan is empty or covers it.
    pub enter-IsValidWorld :
        (call : Call) (w : World FilePath)
        → IsValidCall call
        → IsValidWorld w
        → Returns (enter text metadata call w) (λ (n, w'). IsValidWorld w')
    enter-IsValidWorld call w valid v =
        rw (enter_lem text metadata call w valid (λ engine h. (v engine h).mapped))
          (response-IsValidWorld call w valid v)
