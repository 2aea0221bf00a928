-- ===== src/Cli/Sourced/Boundary.antt =====
-- The boundary that is found over reads is the reference cut, as it is on a slice.
use mmap_chunker_core.Base.{
  ℕ, suc, ◌-◌, ◌≤◌, ◌<◌, ◌≡◌, refl, ap, Bool, arith, max, List, [], ◌∷◌, length, drop, length-take,
  length-drop, false, Bool-cases, inl, inr, ◌&&◌, ◌==◌, leb, if◌then◌else◌, done, ok, isize_max,
}
use mmap_chunker_core.Scanner.Chunks.Laws.{IsDelimiter}
use mmap_chunker_core.Scanner.Partition.{slices_equal}
use mmap_chunker_core.Scanner.Partition.Reference.{ends_at, snap_cut}
use mmap_chunker_core.Scanner.Partition.Laws.{slices_equal-take}
use mmap_chunker_core.Source.{ByteSource}
use mmap_chunker_core.Source.Failures.{MayServe}
use mmap_chunker_core.Cli.{Attempt, failed_to_read, map_err}
use mmap_chunker_core.Cli.Boundary.{BoundarySearchState, settled}
use mmap_chunker_core.Cli.Boundary.Laws.{IsBehind, cached_or-IsBehind}
use mmap_chunker_core.Cli.Logical.Rounds.{Ends}
use mmap_chunker_core.Cli.Sourced.{
  fill_from, keep, accept, pattern_scan, byte_boundary_sourced, pattern_boundary_sourced,
  next_record_boundary_sourced,
}
use mmap_chunker_core.Cli.Sourced.Search.{
  next_end, Unread, >>=-Ends, >>=_congr, byte_scan-pattern_scan, fill_from-Ends, pattern_scan-Ends,
}

one_byte :
    (d : ℕ) (buffer : List ℕ)
    → let matches : Bool = elim buffer [ [] ↦ false | b ∷ bs ↦ b == d ] in
      (length buffer == 1 && matches) ≡ (length buffer == 1 && slices_equal buffer (d ∷ []))
one_byte d [] = refl
one_byte d (b ∷ []) = ground arith
one_byte d (b ∷ c ∷ bs) = ground arith

byte_boundary-pattern_boundary :
    (source : ByteSource) (buffer_len t : ℕ) (state : BoundarySearchState) (d : ℕ)
    → byte_boundary_sourced source buffer_len t state d
      ≡ pattern_boundary_sourced source buffer_len t state (d ∷ [])
unfolding byte_boundary_sourced pattern_boundary_sourced
byte_boundary-pattern_boundary source buffer_len t state d =
    let from = max t state.scan_from in
    let forward =
      keep source buffer_len (pattern_scan source buffer_len (d ∷ []) (suc source.len) from) in
    rw (byte_scan-pattern_scan source buffer_len d (suc source.len) from) (
      ap
        (λ (r : Attempt (ℕ × BoundarySearchState)).
          if leb 1 t && leb t source.len then r else forward)
        (>>=_congr (map_err failed_to_read (fill_from source (t - 1) 1)) _ _ λ buffer.
          ap (λ (c : Bool). if c then done (ok (accept source buffer_len t state)) else forward)
            (one_byte d buffer)))

module _ (source : ByteSource) (xs : List ℕ) (serves : MayServe source xs)
    (small : length xs ≤ isize_max) (buffer_len t : ℕ) (state : BoundarySearchState)
    (behind : IsBehind state t) (inside : t < length xs) where
  pattern_boundary-Ends :
      (p : List ℕ)
      → 0 < length p
      → length p ≤ buffer_len
      → let b = snap_cut p xs t in
        Ends
          (Unread source xs)
          (pattern_boundary_sourced source buffer_len t state p)
          (b, settled b)
  pattern_boundary-Ends p nonempty holds =
      let size = serves.size in
      let from : max t state.scan_from ≡ t = omega (arith, behind.0) in
      let tail = drop (t - length p) xs in
      let left = length-drop (t - length p) xs in
      let taken = length-take (length p) tail in
      let exact = slices_equal-take p tail (length p) refl in
      let scan =
        pattern_scan-Ends source xs serves p nonempty small buffer_len holds (suc source.len) t
          (omega arith) (omega (arith, size)) in
      let e = next_end p xs t in
      let forward : Ends (Unread source xs)
          (keep source buffer_len (pattern_scan source buffer_len p (suc source.len) t))
          (e, settled e) =
        >>=-Ends (Unread source xs) (pattern_scan source buffer_len p (suc source.len) t)
          (λ boundary. done (ok (boundary, settled boundary))) e (e, settled e) scan (inl refl) in
      elim (Bool-cases (leb (length p) t)) [
        | inr shallow ↦
            let step : pattern_boundary_sourced source buffer_len t state p
                ≡ keep source buffer_len (pattern_scan source buffer_len p (suc source.len) t) =
              unfold pattern_boundary_sourced in rw from (ground arith) in
            let cut : snap_cut p xs t ≡ e = unfold next_end snap_cut ends_at in ground arith in
            rw (step, cut) forward
        | inl deep ↦
            elim (fill_from-Ends source xs serves (t - length p) (length p) (ground arith)) [
              | inr (k, failed, bad) ↦ inr (k, unfold pattern_boundary_sourced in ground arith, bad)
              | inl filled ↦ elim (Bool-cases (ends_at p xs t)) [
                | inl behind_one ↦
                    let cut : snap_cut p xs t ≡ t = unfold snap_cut in rw behind_one refl in
                    inl (rw cut (unfold pattern_boundary_sourced ends_at in ground arith))
                | inr inexact ↦
                    let step : pattern_boundary_sourced source buffer_len t state p
                        ≡ keep source buffer_len
                            (pattern_scan source buffer_len p (suc source.len) t) =
                      unfold pattern_boundary_sourced ends_at in rw from (ground arith) in
                    let cut : snap_cut p xs t ≡ e = unfold next_end snap_cut in rw inexact refl in
                    rw (step, cut) forward
              ]
            ]
      ]

  pub next_record_boundary_sourced-Ends :
      (p : List ℕ)
      → IsDelimiter p
      → length p ≤ buffer_len
      → let b = snap_cut p xs t in
        Ends
          (Unread source xs)
          (next_record_boundary_sourced source buffer_len t state p)
          (b, settled b)
  unfolding next_record_boundary_sourced
  next_record_boundary_sourced-Ends [] del holds = absurd (omega (arith, del.nonempty))
  next_record_boundary_sourced-Ends (d ∷ []) del holds =
      rw
        (
          cached_or-IsBehind state t _ _ behind,
          byte_boundary-pattern_boundary source buffer_len t state d,
        )
        (pattern_boundary-Ends (d ∷ []) del.nonempty holds)
  next_record_boundary_sourced-Ends (d ∷ e ∷ q) del holds =
      let long : (length (d ∷ e ∷ q) == 1) ≡ false = ground arith in
      rw (cached_or-IsBehind state t _ _ behind, long)
        (pattern_boundary-Ends (d ∷ e ∷ q) del.nonempty holds)
