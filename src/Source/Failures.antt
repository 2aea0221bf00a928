-- ===== src/Source/Failures.antt =====
-- The planner over a source whose reads may fail: the plan is right, or a read's error is passed on.
use mathlib.Core.Path.{subst}
use mmap_chunker_core.Base.{
  ℕ, zero, suc, ◌+◌, ◌-◌, ◌≤◌, ◌<◌, ◌≡◌, refl, sym, ap, ◌∙◌, arith, Bool-cases, min, max, List,
  length, take, drop, drop-drop, length-take, length-drop, none, Option-cases, inl, inr, ◌⊎◌, Run,
  done, ok, err, Io, ErrorKind, isize_max, leb, ltb, if◌then◌else◌, All, All-take, All-drop,
  saturating_add_lem, add_usize_lem, saturating_mul,
}
use mmap_chunker_core.Slice.{Slice}
use mmap_chunker_core.Bits.Zeros.{IsByte}
use mmap_chunker_core.Search.{search}
use mmap_chunker_core.Search.Laws.{search_fits}
use mmap_chunker_core.Search.Prefix.{search-take-some, take_add, take_whole, probe_miss}
use mmap_chunker_core.Search.From.{search_from, search_from_end}
use mmap_chunker_core.Scanner.Chunks.Laws.{IsDelimiter}
use mmap_chunker_core.Scanner.Pattern.Laws.{find_pattern_in_slice_lem}
use mmap_chunker_core.Source.{ByteSource}
use mmap_chunker_core.Source.Read.{and_ok, fill, probe_loop, find_pattern_from}

-- A source of `xs` as `Serves` has it, except that a read may fail.
pub record MayServe (source : ByteSource) (xs : List ℕ) : Type 0 where
  pub size : source.len ≡ length xs
  pub reads :
      (offset n : ℕ)
      → 0 < n
      → offset < length xs
      → ((k : ℕ) × (0 < k)
          × (k ≤ n)
          × (offset + k ≤ length xs)
          × (source.read_at offset n ≡ ok (take k (drop offset xs))))
        ⊎ ((e : ErrorKind) × (source.read_at offset n ≡ err e))

-- An error that a read inside the file reports.
abbrev pub Fails : ByteSource → List ℕ → ErrorKind → Type 0
Fails source xs e =
    (offset : ℕ) × (n : ℕ) × (0 < n) × (offset < length xs) × (source.read_at offset n ≡ err e)

-- The run returns `a`, or the error of a read.
abbrev pub Settles : {A : Type 0} → ByteSource → List ℕ → Run (Io A) → A → Type 0
Settles source xs run a =
    (run ≡ done (ok a)) ⊎ ((e : ErrorKind) × (run ≡ done (err e)) × Fails source xs e)

pub and_ok-Settles :
    {A B : Type 0} (source : ByteSource) (xs : List ℕ) (m : Run (Io A)) (k : A → Run (Io B)) (a : A)
    (b : B)
    → Settles source xs m a
    → Settles source xs (k a) b
    → Settles source xs (and_ok m k) b
and_ok-Settles source xs m k a b (inl p) h = rw p h
and_ok-Settles source xs m k a b (inr (e, p, f)) h = inr (e, rw p refl, f)

module _ (source : ByteSource) (xs : List ℕ) (serves : MayServe source xs) where
  pub fill-Settles :
      (fuel offset want k : ℕ)
      → offset + want ≤ length xs
      → k ≤ want
      → want < fuel + k
      → Settles source xs
          (fill source fuel offset want (take k (drop offset xs)))
          (take want (drop offset xs))
  unfolding fill
  fill-Settles zero offset want k fits le enough = absurd (omega arith)
  fill-Settles (suc fuel) offset want k fits le enough =
      let n : length (take k (drop offset xs)) ≡ k =
        omega (arith, length-take k (drop offset xs), length-drop offset xs) in
      elim (Bool-cases (ltb k want)) [
        | inr full ↦ let same : k ≡ want = ground arith in inl (ground arith)
        | inl more ↦ elim (serves.reads (offset + k) (want - k) (ground arith) (ground arith)) [
          | inr (e, failed) ↦
              inr (e, ground arith, (offset + k, want - k, ground arith, ground arith, failed))
          | inl (j, pos, small, inside, read) ↦
              let step : fill source (suc fuel) offset want (take k (drop offset xs))
                  ≡ fill source fuel offset want (take (k + j) (drop offset xs)) =
                ground (
                  arith,
                  read,
                  length-take j (drop (offset + k) xs),
                  length-drop (offset + k) xs,
                  take_add k j (drop offset xs),
                  drop-drop k offset xs,
                ) in
              subst (λ run. Settles source xs run (take want (drop offset xs))) (sym step)
                (fill-Settles fuel offset want (k + j) fits (ground arith) (omega arith))
        ]
      ]

  module _ (p : List ℕ) (del : IsDelimiter p) (bytes : All IsByte xs)
      (small : length xs ≤ isize_max) (buffer_addr max_probe : ℕ) where
    probe_loop-Settles :
        (fuel offset probe_len : ℕ)
        → length p ≤ probe_len
        → probe_len ≤ max_probe
        → max_probe ≤ isize_max
        → offset ≤ length xs
        → length xs < fuel + offset
        → Settles source xs
            (probe_loop source buffer_addr max_probe p fuel offset probe_len)
            (search_from p xs offset)
    unfolding probe_loop
    probe_loop-Settles zero offset probe_len a b c d e = absurd (omega arith)
    probe_loop-Settles (suc fuel) offset probe_len a b c d e =
        let size = serves.size in
        let w = min probe_len (source.len - offset) in
        let ys = drop offset xs in
        let buffer : Slice = record { addr = buffer_addr; bytes = take w ys } in
        let left = length-drop offset xs in
        let taken = length-take w ys in
        let found =
          find_pattern_in_slice_lem buffer p
            (All-take IsByte w ys (All-drop IsByte offset xs bytes)) del.bytes in
        elim (Bool-cases (leb source.len offset)) [
          | inl past ↦ inl (ground (arith, search_from_end p xs offset))
          | inr before ↦
              elim (fill-Settles (suc w) offset w 0 (ground arith) (omega arith) (omega arith)) [
                | inr (k, failed, f) ↦ inr (k, ground arith, f)
                | inl filled ↦ elim (Option-cases (search p (take w ys))) [
                  | inr (r, hit) ↦ inl (
                      ground (
                        arith,
                        found,
                        del.nonempty,
                        search-take-some p ys w r hit,
                        search_fits p (take w ys) r hit,
                        add_usize_lem offset r,
                      ))
                  | inl miss ↦ elim (Bool-cases (leb source.len (offset + w))) [
                    | inl whole ↦
                        let all : take w ys ≡ ys = take_whole ys w (ground arith) in
                        let nowhere : search p ys ≡ none = sym (ap (search p) all) ∙ miss in
                        inl (ground (arith, found, saturating_add_lem offset w))
                    | inr part ↦
                        let adv = max (w - (length p - 1)) 1 in
                        let grown =
                          if ltb probe_len max_probe
                          then min (saturating_mul probe_len 2) max_probe
                          else probe_len in
                        let step : probe_loop source buffer_addr max_probe p (suc fuel) offset
                              probe_len
                            ≡ probe_loop source buffer_addr max_probe p fuel (offset + adv) grown =
                          ground (
                            arith,
                            found,
                            saturating_add_lem offset w,
                            saturating_add_lem offset adv,
                          ) in
                        let on : Settles source xs
                            (probe_loop source buffer_addr max_probe p fuel (offset + adv) grown)
                            (search_from p xs (offset + adv)) =
                          probe_loop-Settles fuel (offset + adv) grown
                            (unfold saturating_mul in ground arith) (ground arith) c (ground arith)
                            (omega arith) in
                        let same : search_from p xs offset ≡ search_from p xs (offset + adv) =
                          probe_miss xs p del.nonempty offset w (ground arith) (ground arith)
                            miss in
                        subst
                          (λ o.
                            Settles source xs
                              (probe_loop source buffer_addr max_probe p (suc fuel) offset
                                probe_len)
                              o)
                          (sym same)
                          (subst (λ run. Settles source xs run (search_from p xs (offset + adv)))
                            (sym step) on)
                  ]
                ]
              ]
        ]

    pub find_pattern_from-Settles :
        (from : ℕ)
        → length p ≤ max_probe
        → max_probe ≤ isize_max
        → from ≤ length xs
        → Settles source xs
            (find_pattern_from source buffer_addr max_probe from p)
            (search_from p xs from)
    unfolding find_pattern_from
    find_pattern_from-Settles from holds addressable inside =
        let looped =
          probe_loop-Settles (suc source.len) from (min (max (length p) 4096) max_probe)
            (omega arith) (omega arith) addressable inside (omega (arith, serves.size)) in
        let pos = del.nonempty in
        elim looped [ inl q ↦ inl (ground arith) | inr (e, q, f) ↦ inr (e, ground arith, f) ]
