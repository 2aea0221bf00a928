-- ===== src/Chunker/Correct.antt =====
-- What the scans of `MmapChunker` and the reading of their chunks amount to, whatever `stat` tells.
use native.Mathlib.Nat.{zero-add}
use mathlib.Core.Path.{subst}
use mmap_chunker_core.Base.{
  Bool-cases, Result-cases, ◌≤◌, inl, inr, ltb, ℕ, zero, suc, ◌+◌, ◌-◌, ◌<◌, ◌≡◌, refl, ◌∙◌, arith,
  List, [], ◌∷◌, length, drop, length-take, length-drop, get_elem?, get_elem?_lt, get_elem?_ge,
  true, inl, inr, none, some, Run, done, ◌>>=◌, Returns, ok, err, Io, drop_cons, drop_all,
}
use mmap_chunker_core.Slice.{len, IsSlice, slice_range_lem}
use mmap_chunker_core.Ranges.{Range, part, parts, concat}
use mmap_chunker_core.Ranges.Laws.{concat-parts, Covers-get_elem?}
use mmap_chunker_core.Plan.{empty, count, range_at}
use mmap_chunker_core.Plan.Laws.{Plans}
use mmap_chunker_core.Pin.{u32_max, Metadata, PinMismatch, PinnedFile, revalidate}
use mmap_chunker_core.Pin.Laws.{Holds, Trips, revalidate_iff, revalidate-mismatch}
use mmap_chunker_core.Chunker.{
  MmapChunker, get_chunk, chunk_count, check_pinned, pin_status, take_pin_error,
}
use mmap_chunker_core.Chunker.Ops.{
  Op, IsValidOp, plan_of, perform, outcome, perform_lem, mmap-check_pinned,
}
use mmap_chunker_core.Chunker.Laws.{
  Asks, plan_of-Plans, IsValid, pinned-check_pinned, outcome-IsValid,
}

module _ {FilePath : Type 0} (metadata : FilePath → Io Metadata) where
  outcome-count :
      (op : Op) (c : MmapChunker FilePath)
      → let r = outcome metadata op c in
        (r.0 ≡ count r.1.plan) × (r.1.mmap ≡ c.mmap) × (r.1.pinned ≡ c.pinned)
  unfolding count check_pinned
  outcome-count op c = ground (arith, mmap-check_pinned metadata c, pinned-check_pinned metadata c)

  -- Every scan with valid arguments, on every branch of its gate, returns. It keeps the invariant, the
  -- map and the pin, and answers the count of the plan that it leaves.
  pub perform_correct :
      (op : Op) (c : MmapChunker FilePath)
      → IsValidOp op
      → IsValid c
      → Returns (perform metadata op c) (λ (n, c').
        IsValid c' × (n ≡ count c'.plan) × (c'.mmap ≡ c.mmap) × (c'.pinned ≡ c.pinned))
  perform_correct op c valid v =
      rw (perform_lem metadata op c valid v.mapped)
        (let (n, m, p) = outcome-count op c in (outcome-IsValid metadata op c valid v, n, m, p))

  -- A mismatch closes the gate: the scan answers 0, resets the plan and stashes the mismatch.
  perform_tripped :
      (op : Op) (c : MmapChunker FilePath) (pinned : PinnedFile FilePath) (e : PinMismatch)
      → IsValidOp op
      → IsSlice c.mmap
      → c.pinned ≡ some pinned
      → revalidate metadata pinned ≡ err e
      → perform metadata op c ≡ done (0, record c { plan = empty; pin_error = some e })
  unfolding check_pinned
  perform_tripped op c pinned e valid mapped p h =
      ground (arith, perform_lem metadata op c valid mapped)

  -- A scan with valid arguments on a handle over a slice whose pin, with flags that fit 32 bits, does not
  -- hold of what `stat` tells now: it returns 0, no index has a chunk afterwards, whatever plan there was
  -- before, and the map and the pin stay. It stashes one mismatch, whose kind is the cause for which the pin
  -- does not hold; `pin_status` shows it, and it can be taken once.
  pub perform-Trips :
      (op : Op) (c : MmapChunker FilePath) (pinned : PinnedFile FilePath)
      → IsValidOp op
      → IsSlice c.mmap
      → c.pinned ≡ some pinned
      → pinned.flags ≤ u32_max
      → ¬ Holds metadata pinned
      → Returns (perform metadata op c) (λ (n, c').
        (n ≡ 0)
        × ((i : ℕ) → get_chunk c' i ≡ done none)
        × (c'.mmap ≡ c.mmap)
        × (c'.pinned ≡ c.pinned)
        × ((e : PinMismatch) × Trips metadata pinned e.kind
            × (pin_status c' ≡ err e)
            × ((take_pin_error c').0 ≡ some e)
            × ((take_pin_error (take_pin_error c').1).0 ≡ none)))
  perform-Trips op c pinned valid mapped p fits refused =
      elim (Result-cases (revalidate metadata pinned)) [
        | inl (u, held) ↦ absurd (refused ((revalidate_iff metadata pinned fits).0 held))
        | inr (e, tripped) ↦ rw (perform_tripped op c pinned e valid mapped p tripped) (
          refl,
          λ i. unfold get_chunk range_at in refl,
          refl,
          refl,
          (
            e,
            revalidate-mismatch metadata pinned fits e.kind e.detail tripped,
            unfold pin_status in refl,
            unfold take_pin_error in refl,
            unfold take_pin_error in refl,
          ),
        )
      ]

  -- A pin that holds: the scan clears the stash, makes the plan that the request calls for, and answers
  -- its count.
  pub perform_holds :
      (op : Op) (c : MmapChunker FilePath) (pinned : PinnedFile FilePath)
      → IsValidOp op
      → IsSlice c.mmap
      → c.pinned ≡ some pinned
      → revalidate metadata pinned ≡ ok tt
      → let plan = plan_of op c.mmap.bytes in
        perform metadata op c ≡ done (count plan, record c { plan = plan; pin_error = none })
  unfolding check_pinned
  perform_holds op c pinned valid mapped p h =
      ground (arith, perform_lem metadata op c valid mapped)

module _ {FilePath : Type 0} where
  -- Reading `left` chunks by index, from `i` on: nothing is left out, and a missing one ends it.
  abbrev pub read_chunks : MmapChunker FilePath → ℕ → ℕ → Run (List (List ℕ))
  read_chunks c i zero = done []
  read_chunks c i (suc left) = get_chunk c i >>= λ chunk. elim chunk [
    | none ↦ done []
    | some bytes ↦ read_chunks c (suc i) left >>= λ rest. done (bytes ∷ rest)
  ]

  -- What is read of the plan `rs` at `i`.
  pub get_chunk-part :
      (c : MmapChunker FilePath) (rs : List Range) (i : ℕ) (r : Range)
      → Plans c.plan (len c.mmap) rs
      → get_elem? rs i ≡ some r
      → get_chunk c i ≡ done (some (part c.mmap.bytes r))
  unfolding get_chunk
  get_chunk-part c rs i (start, end) p e =
      let inside = Covers-get_elem? 0 (len c.mmap) rs i start end p.covers e in
      ground (arith, p.answers i, slice_range_lem c.mmap start end (omega arith) inside.2)

  get_chunk_empty :
      (c : MmapChunker FilePath) (i : ℕ)
      → c.plan ≡ empty
      → (get_chunk c i ≡ done none) × (chunk_count c ≡ 0)
  unfolding get_chunk chunk_count range_at count
  get_chunk_empty c i e = rw e (refl, refl)

  get_chunk_planned :
      (c : MmapChunker FilePath) (i : ℕ) (rs : List Range)
      → Plans c.plan (len c.mmap) rs
      → (i < chunk_count c
          → (bytes : List ℕ) × (get_chunk c i ≡ done (some bytes)) × (0 < length bytes))
        × (chunk_count c ≤ i → get_chunk c i ≡ done none)
  unfolding get_chunk chunk_count
  get_chunk_planned c i rs p = (
    λ h.
        let ((start, end), e) = get_elem?_lt rs i (omega (arith, p.counted)) in
        let inside = Covers-get_elem? 0 (len c.mmap) rs i start end p.covers e in
        (
          part c.mmap.bytes (start, end),
          get_chunk-part c rs i (start, end) p e,
          omega (
            arith,
            inside,
            length-take (end - start) (drop start c.mmap.bytes),
            length-drop start c.mmap.bytes,
          ),
        ),
    λ h. ground (arith, p.answers i, get_elem?_ge rs i (omega (arith, p.counted))),
  )

  pub get_chunk_cases :
      (c : MmapChunker FilePath) (i : ℕ)
      → IsValid c
      → (i < chunk_count c
          → (bytes : List ℕ) × (get_chunk c i ≡ done (some bytes)) × (0 < length bytes))
        × (chunk_count c ≤ i → get_chunk c i ≡ done none)
  get_chunk_cases c i v = elim v.planned [
    | inl e ↦
        let (none_there, zero_count) = get_chunk_empty c i e in
        (λ h. absurd (omega arith), λ h. none_there)
    | inr (rs, p) ↦ get_chunk_planned c i rs p
  ]

  -- `get_chunk` never panics on a handle that satisfies the invariant. It answers a chunk for exactly the
  -- indices below the chunk count, and no chunk is empty.
  pub get_chunk_total :
      (c : MmapChunker FilePath) (i : ℕ)
      → IsValid c
      → Returns (get_chunk c i) (λ answer. elim answer [
        | none ↦ chunk_count c ≤ i
        | some bytes ↦ (i < chunk_count c) × (0 < length bytes)
      ])
  get_chunk_total c i v =
      let (inside, outside) = get_chunk_cases c i v in
      elim (Bool-cases (ltb i (chunk_count c))) [
        | inl below ↦ let (bytes, e, h) = inside (ground arith) in rw e (ground arith, h)
        | inr above ↦ rw (outside (ground arith)) (ground arith)
      ]

  read_chunks-parts :
      (c : MmapChunker FilePath) (rs : List Range)
      → Plans c.plan (len c.mmap) rs
      → (left i : ℕ) → i + left ≡ length rs
      → read_chunks c i left ≡ done (parts c.mmap.bytes (drop i rs))
  read_chunks-parts c rs p zero i e = rw (drop_all rs i (omega arith)) refl
  read_chunks-parts c rs p (suc left) i e =
      let (r, at_i) = get_elem?_lt rs i (omega arith) in
      rw
        (
          get_chunk-part c rs i r p at_i,
          read_chunks-parts c rs p left (suc i) (omega arith),
          drop_cons rs i at_i,
        )
        refl

  read_all :
      (c : MmapChunker FilePath) (rs : List Range) (n : ℕ)
      → Plans c.plan (len c.mmap) rs
      → n ≡ count c.plan
      → Returns (read_chunks c 0 n) (λ chunks. concat chunks ≡ c.mmap.bytes)
  read_all c rs n p e =
      let k : n ≡ length rs = e ∙ p.counted in
      rw (k, read_chunks-parts c rs p (length rs) 0 (zero-add (length rs)))
        (concat-parts c.mmap.bytes 0 rs p.covers)

  outcome-Plans :
      (metadata : FilePath → Io Metadata) (op : Op) (c : MmapChunker FilePath)
      → IsValidOp op
      → Asks op
      → IsSlice c.mmap
      → (check_pinned metadata c).1 ≡ true
      → let c' = (outcome metadata op c).1 in (rs : List Range) × Plans c'.plan (len c'.mmap) rs
  outcome-Plans metadata op c valid asks mapped fine =
      rw (fine, mmap-check_pinned metadata c) (plan_of-Plans op c.mmap.bytes valid asks mapped.fits)

  -- After a scan that asks for something and whose gate is open, the chunks read by index from the first
  -- to the last make up the file, every byte of it once and in order.
  pub read_chunks_all :
      (metadata : FilePath → Io Metadata) (op : Op) (c : MmapChunker FilePath)
      → IsValidOp op
      → Asks op
      → IsSlice c.mmap
      → (check_pinned metadata c).1 ≡ true
      → Returns
          (perform metadata op c)
          (λ (n, c'). Returns (read_chunks c' 0 n) (λ chunks. concat chunks ≡ c.mmap.bytes))
  read_chunks_all metadata op c valid asks mapped fine =
      let (rs, p) = outcome-Plans metadata op c valid asks mapped fine in
      let (n, c') = outcome metadata op c in
      let (counted, same, pin) = outcome-count metadata op c in
      let all = read_all c' rs n p counted in
      rw (perform_lem metadata op c valid mapped)
        (subst (λ m. Returns (read_chunks c' 0 n) (λ chunks. concat chunks ≡ m.bytes)) same all)
