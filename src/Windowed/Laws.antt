-- ===== src/Windowed/Laws.antt =====
-- A windowed file reads as the file, whatever its cached view is.
use mathlib.Core.Path.{subst}
use mmap_chunker_core.Base.{
  ℕ, zero, suc, ◌+◌, ◌-◌, ◌*◌, ◌/◌, ◌%◌, ◌≤◌, ◌<◌, ◌≡◌, refl, ap, ◌∙◌, arith, min, max, List, [],
  ◌∷◌, length, take, drop, drop-drop, length-take, length-drop, some, Option-cases, true,
  Bool-cases, inl, inr, ◌↔◌, ok, Io, isize_max, add_usize_lem, saturating_add, add_usize,
}
use mmap_chunker_core.Windowed.{
  view_alignment, WindowView, WindowedMmapFile, map_view, remap, covers, read_at,
}

-- The system maps the bytes that stand in the file, from an aligned offset on and inside the file.
abbrev pub Maps : (ℕ → ℕ → Io (List ℕ)) → List ℕ → Type 0
Maps mmap xs =
    (start n : ℕ)
    → start % view_alignment ≡ 0
    → 0 < n
    → start + n ≤ length xs
    → mmap start n ≡ ok (take n (drop start xs))

-- A view of the file `xs`: aligned, inside the file, and not longer than `cap`.
pub record IsView (xs : List ℕ) (cap : ℕ) (view : WindowView) : Type 0 where
  pub aligned : view.aligned_start % view_alignment ≡ 0
  pub inside : view.aligned_start + length view.mapped ≤ length xs
  pub shows : view.mapped ≡ take (length view.mapped) (drop view.aligned_start xs)
  pub bounded : length view.mapped ≤ cap

pub record IsWindow (xs : List ℕ) (cap : ℕ) (file : WindowedMmapFile) : Type 0 where
  pub size : file.size ≡ length xs
  pub viewed : (view : WindowView) → file.view ≡ some view → IsView xs cap view

-- The view holds `n` bytes at the offset.
abbrev pub Contains : WindowView → ℕ → ℕ → Type 0
Contains view offset n =
    (view.aligned_start ≤ offset) × (offset + n ≤ view.aligned_start + length view.mapped)

-- The view is replaced by one that begins at the last multiple of 65536 up to the offset, holds the
-- request, and is at most 65535 bytes longer than the larger of the window and the buffer.
abbrev pub Remapped : WindowedMmapFile → ℕ → ℕ → ℕ → WindowedMmapFile → Type 0
Remapped file offset n out_len file' =
    (view : WindowView) × (file' ≡ record file { view = some view })
    × (view.aligned_start ≡ offset / 65536 * 65536)
    × Contains view offset n
    × (length view.mapped ≤ max file.window_bytes out_len + 65535)

-- A part of a part.
drop-take : (k n w : ℕ) (ys : List ℕ) → k + n ≤ w → take n (drop k (take w ys)) ≡ take n (drop k ys)
drop-take zero zero w ys h = refl
drop-take zero (suc n) zero ys h = absurd (omega arith)
drop-take zero (suc n) (suc w) [] h = refl
drop-take zero (suc n) (suc w) (y ∷ ys) h = ap (λ zs. y ∷ zs) (drop-take zero n w ys (omega arith))
drop-take (suc k) n zero ys h = absurd (omega arith)
drop-take (suc k) n (suc w) [] h = refl
drop-take (suc k) n (suc w) (y ∷ ys) h = drop-take k n w ys (omega arith)

module _ (mmap : ℕ → ℕ → Io (List ℕ)) (xs : List ℕ) (maps : Maps mmap xs)
    (small : length xs ≤ isize_max) (cap : ℕ) where
  remap_lem :
      (file : WindowedMmapFile) (offset n : ℕ)
      → IsWindow xs cap file
      → 0 < n
      → offset + n ≤ length xs
      → max file.window_bytes n + 65535 ≤ cap
      → (file' : WindowedMmapFile) × (remap mmap file offset n
          ≡ ok (take n (drop offset xs), file'))
        × IsWindow xs cap file'
        × Remapped file offset n n file'
  unfolding remap map_view
  remap_lem file offset n v pos inside room =
      let start = offset / view_alignment * view_alignment in
      let slack = offset - start in
      let size = v.size in
      let below : start ≤ offset = omega arith in
      let near : slack ≤ 65535 = omega arith in
      let needed : add_usize slack n ≡ slack + n = add_usize_lem slack n (omega arith) in
      let wide = saturating_add file.window_bytes slack in
      let capped : wide ≤ file.window_bytes + slack = unfold saturating_add in omega arith in
      let m = min (max wide (add_usize slack n)) (file.size - start) in
      let long : slack + n ≤ m = omega arith in
      let mapped = maps start m (omega arith) (omega arith) (omega arith) in
      let back : start + slack ≡ offset = omega arith in
      let got : take n (drop slack (take m (drop start xs))) ≡ take n (drop offset xs) =
        drop-take slack n m (drop start xs) long
        ∙ ap (take n) (drop-drop slack start xs ∙ ap (λ k. drop k xs) back) in
      let view : WindowView = record { aligned_start = start; mapped = take m (drop start xs) } in
      let exact : length view.mapped ≡ m =
        omega (arith, length-take m (drop start xs), length-drop start xs) in
      (
        record file { view = some view },
        ground (arith, mapped, got),
        record {
          size = v.size;
          viewed = λ t e.
              let same : view ≡ t = ground arith in
              subst (IsView xs cap) same (record {
                aligned = omega arith;
                inside = omega arith;
                shows = rw exact refl;
                bounded = omega arith;
              });
        },
        (view, refl, refl, (omega arith, omega arith), omega arith),
      )

  -- A read that the cached view holds.
  cached_lem :
      (view : WindowView) (offset n : ℕ)
      → IsView xs cap view
      → offset + n ≤ length xs
      → covers view offset n ≡ true
      → take n (drop (offset - view.aligned_start) view.mapped) ≡ take n (drop offset xs)
  cached_lem view offset n v inside h =
      let start = view.aligned_start in
      let m = length view.mapped in
      let fits = v.inside in
      let request = add_usize_lem offset n (omega arith) in
      let end = add_usize_lem start m (omega arith) in
      let back : start + (offset - start) ≡ offset = ground arith in
      ap (λ ms. take n (drop (offset - start) ms)) v.shows
      ∙ drop-take (offset - start) n m (drop start xs) (ground arith)
      ∙ ap (take n) (drop-drop (offset - start) start xs ∙ ap (λ k. drop k xs) back)

  covers_iff :
      (view : WindowView) (offset n : ℕ)
      → IsView xs cap view
      → offset + n ≤ length xs
      → (covers view offset n ≡ true) ↔ Contains view offset n
  covers_iff view offset n v inside =
      let fits = v.inside in
      let request = add_usize_lem offset n (omega arith) in
      let end = add_usize_lem view.aligned_start (length view.mapped) (omega arith) in
      (λ e. (ground arith, ground arith), λ e. ground (arith, e))

  -- `read_at` of a windowed file inside the file returns the bytes at the offset, as many as the buffer
  -- takes or the file has, whichever view is cached. A cached view that holds the request is left as it is,
  -- however long it is. Otherwise the new view begins at the last multiple of 65536 up to the offset, holds
  -- the request, and is not longer than the larger of the window and the buffer, and 65535 bytes. Either
  -- way the view shows the file, from a multiple of 65536 on, and keeps every cap that the cached view keeps
  -- and that leaves room for a new one.
  pub read_at_lem :
      (file : WindowedMmapFile) (offset out_len : ℕ)
      → IsWindow xs cap file
      → 0 < out_len
      → offset < length xs
      → max file.window_bytes out_len + 65535 ≤ cap
      → let n = min out_len (file.size - offset) in
        (file' : WindowedMmapFile) × (read_at mmap file offset out_len
          ≡ ok (take n (drop offset xs), file'))
        × IsWindow xs cap file'
        × ((view : WindowView) → file.view ≡ some view → Contains view offset n → file' ≡ file)
        × (((view : WindowView) → file.view ≡ some view → ¬ Contains view offset n)
            → Remapped file offset n out_len file')
  unfolding read_at
  read_at_lem file offset out_len v pos inside room =
      let n = min out_len (file.size - offset) in
      let size = v.size in
      let (file', made, v', (view', replaced, start, holds, bound)) =
        remap_lem file offset n v (omega arith) (omega arith) (omega arith) in
      let remapped : Remapped file offset n out_len file' =
        (view', replaced, start, holds, omega arith) in
      elim (Option-cases file.view) [
        | inl e ↦ (file', ground (arith, made), v', λ view f held. cc, λ none_holds. remapped)
        | inr (view, e) ↦
            let (to, from) = covers_iff view offset n (v.viewed view e) (omega arith) in
            elim (Bool-cases (covers view offset n)) [
              | inl held ↦ (
                file,
                ground (arith, cached_lem view offset n (v.viewed view e) (omega arith) held),
                v,
                λ other f h. refl,
                λ none_holds. absurd (none_holds view e (to held)),
              )
              | inr outside ↦ (
                file',
                ground (arith, made),
                v',
                λ other f h.
                    let same : view ≡ other = cc in
                    let here : Contains view offset n = rw same h in
                    let clash = from here in absurd cc,
                λ none_holds. remapped,
              )
            ]
      ]
