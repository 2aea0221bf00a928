-- ===== src/Windowed.antt =====
-- `WindowedMmapFile::read_at` of src/mmap.rs: reads served from one cached view, which is mapped anew
-- when a request lies outside it. What the system maps is an argument.
pub mod Laws
pub mod Source
use mmap_chunker_core.Base.{
  Bool, ℕ, ◌-◌, ◌*◌, ◌/◌, min, max, List, [], length, take, drop, Option, none, some, ok, err, Io,
  invalid_input, isize_max, ◌==◌, ltb, leb, ◌||◌, ◌&&◌, if◌then◌else◌, add_usize, saturating_add,
}

abbrev pub view_alignment : ℕ
view_alignment = 65536

-- A view is its start and the bytes that are mapped there.
pub record WindowView : Type 0 where
  pub aligned_start : ℕ
  pub mapped : List ℕ

pub record WindowedMmapFile : Type 0 where
  pub size : ℕ
  pub window_bytes : ℕ
  pub view : Option WindowView

-- Whether the cached view holds the request.
abbrev pub covers : WindowView → ℕ → ℕ → Bool
covers view offset n =
    leb view.aligned_start offset
    && leb (add_usize offset n) (add_usize view.aligned_start (length view.mapped))

module _ (mmap : ℕ → ℕ → Io (List ℕ)) where
  unfoldable pub map_view : ℕ → ℕ → Io WindowView
  map_view aligned_start mapped_len =
      let mapped : Io WindowView = elim (mmap aligned_start mapped_len) [
        | err e ↦ err e
        | ok bytes ↦ ok (record { aligned_start = aligned_start; mapped = bytes })
      ] in
      if mapped_len == 0
      then err invalid_input
      else if ltb isize_max aligned_start
      then err invalid_input
      else mapped

  -- The part of `read_at` behind the cached view, for a request of `n` bytes.
  unfoldable pub remap : WindowedMmapFile → ℕ → ℕ → Io (List ℕ × WindowedMmapFile)
  remap file offset n =
      let aligned_start = offset / view_alignment * view_alignment in
      let slack = offset - aligned_start in
      let needed = add_usize slack n in
      let desired = max (saturating_add file.window_bytes slack) needed in
      let mapped_len = min desired (file.size - aligned_start) in
      elim (map_view aligned_start mapped_len) [
        | err e ↦ err e
        | ok view ↦ ok (take n (drop slack view.mapped), record file { view = some view })
      ]

  unfoldable pub read_at : WindowedMmapFile → ℕ → ℕ → Io (List ℕ × WindowedMmapFile)
  read_at file offset out_len =
      let n = min out_len (file.size - offset) in
      let served : Io (List ℕ × WindowedMmapFile) = elim file.view [
        | none ↦ remap file offset n
        | some view ↦
            if covers view offset n
            then ok (take n (drop (offset - view.aligned_start) view.mapped), file)
            else remap file offset n
      ] in
      if out_len == 0 || leb file.size offset then ok ([], file) else served
