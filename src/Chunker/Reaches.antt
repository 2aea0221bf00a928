-- ===== src/Chunker/Reaches.antt =====
-- The states that a handle of `MmapChunker` can be in: opened, then used by scans in any order, each
-- under what `stat` tells at its time, with the stashed mismatch taken in between.
use mathlib.Core.Path.{subst}
use mmap_chunker_core.Base.{
  ℕ, ◌≡◌, refl, ◌∙◌, arith, inl, some, none, done, ok, Io, Result-cases, inr,
}
use mmap_chunker_core.Slice.{Slice, IsSlice}
use mmap_chunker_core.Plan.{empty}
use mmap_chunker_core.Pin.{Metadata, PinnedFile, capture}
use mmap_chunker_core.Chunker.{MmapChunker, fresh, open_pinned, take_pin_error}
use mmap_chunker_core.Chunker.Ops.{Op, IsValidOp, perform}
use mmap_chunker_core.Chunker.Laws.{IsValid}
use mmap_chunker_core.Chunker.Correct.{perform_correct}

module _ {FilePath : Type 0} where
  -- One use of the handle: a scan under `metadata`, or the taking of the stash.
  pub data Step : MmapChunker FilePath → MmapChunker FilePath → Type 0 where
    scan :
        (metadata : FilePath → Io Metadata) (op : Op) {c c' : MmapChunker FilePath} (n : ℕ)
        → IsValidOp op
        → perform metadata op c ≡ done (n, c')
        → Step c c'
    take_error : {c : MmapChunker FilePath} → Step c (take_pin_error c).1

  pub data Reaches (c : MmapChunker FilePath) : MmapChunker FilePath → Type 0 where
    opened : Reaches c c
    used : {c' c'' : MmapChunker FilePath} → Reaches c c' → Step c' c'' → Reaches c c''

  -- What holds from the opening on.
  abbrev pub Keeps : MmapChunker FilePath → MmapChunker FilePath → Type 0
  Keeps c c' = IsValid c' × (c'.mmap ≡ c.mmap) × (c'.pinned ≡ c.pinned)

  Step-Keeps : (c c' : MmapChunker FilePath) → IsValid c → Step c c' → Keeps c c'
  unfolding take_pin_error
  Step-Keeps c c' v (scan metadata op n valid e) =
      let (v', counted, same, pin) = rw e at (perform_correct metadata op c valid v) in
      (v', same, pin)
  Step-Keeps c c' v take_error = (record { mapped = v.mapped; planned = v.planned }, refl, refl)

  -- Every handle that is reached from a valid one by scans and takings in any order satisfies the
  -- invariant, and still has the map and the pin it was opened with.
  pub Reaches-Keeps : (c c' : MmapChunker FilePath) → IsValid c → Reaches c c' → Keeps c c'
  Reaches-Keeps c c' v opened = (v, refl, refl)
  Reaches-Keeps c c' v (used {c' = mid} r s) =
      let (v', same, pin) = Reaches-Keeps c mid v r in
      let (v'', same', pin') = Step-Keeps mid c' v' s in (v'', same' ∙ same, pin' ∙ pin)

  module _ (map_file : FilePath → Io Slice)
      (maps : (path : FilePath) (s : Slice) → map_file path ≡ ok s → IsSlice s) where
    -- What is said of a handle that has just been opened.
    abbrev pub Opens : (FilePath → Io Metadata) → FilePath → ℕ → MmapChunker FilePath → Type 0
    Opens metadata path flags c =
        IsValid c
        × (c.plan ≡ empty)
        × (c.pin_error ≡ none)
        × ((pinned : PinnedFile FilePath) × (c.pinned ≡ some pinned)
            × (capture metadata path flags ≡ ok pinned))

    -- Where the system maps files as slices, an opened handle satisfies the invariant, has no chunks and
    -- no stashed mismatch; its pin is the one that `capture` made.
    pub open_pinned-IsValid :
        (metadata : FilePath → Io Metadata) (path : FilePath) (flags : ℕ) (c : MmapChunker FilePath)
        → open_pinned map_file metadata path flags ≡ ok c
        → Opens metadata path flags c
    unfolding open_pinned
    open_pinned-IsValid metadata path flags c h =
        elim (Result-cases (capture metadata path flags)) [
          | inr (e, p) ↦ absurd (ground arith)
          | inl (pinned, p) ↦ elim (Result-cases (map_file path)) [
            | inr (e, q) ↦ absurd (ground arith)
            | inl (s, q) ↦
                let made : fresh s (some pinned) ≡ c = ground arith in
                subst (Opens metadata path flags) made (
                  record { mapped = maps path s q; planned = inl refl },
                  refl,
                  refl,
                  (pinned, refl, p),
                )
          ]
        ]
