-- ===== src/Cli/Sourced/Search.antt =====
-- The scan over reads finds the end of the next delimiter, or passes on the error of a read.
use mmap_chunker_core.Base.{
  ℕ, zero, suc, ◌+◌, ◌-◌, ◌≤◌, ◌<◌, ◌≡◌, refl, sym, ap, ◌∙◌, arith, min, max, List, [], ◌∷◌, length,
  take, drop, length-take, length-drop, none, some, Option-cases, Bool-cases, inl, inr,
  if◌then◌else◌, done, panicked, out_of_fuel, ok, err, ErrorKind, leb, isize_max, saturating_add,
  saturating_add_lem,
}
use mmap_chunker_core.Search.{search}
use mmap_chunker_core.Search.Laws.{search-singleton, search_fits}
use mmap_chunker_core.Search.Prefix.{search-take-some, take_whole, probe_miss}
use mmap_chunker_core.Search.From.{search_from, search_from_end}
use mmap_chunker_core.Source.{ByteSource}
use mmap_chunker_core.Source.Failures.{MayServe, Fails, fill-Settles}
use mmap_chunker_core.Cli.{Attempt, Message, failed_to_read, ◌>>=◌, map_err}
use mmap_chunker_core.Cli.Boundary.Laws.{find_first_pattern_from-search}
use mmap_chunker_core.Cli.Logical.Rounds.{Ends}
use mmap_chunker_core.Cli.Sourced.{fill_from, byte_round, byte_scan, pattern_round, pattern_scan}

-- The end of the first delimiter from `t` on, or the end of the file.
unfoldable pub next_end : List ℕ → List ℕ → ℕ → ℕ
next_end p xs t = elim (search_from p xs t) [ none ↦ length xs | some c ↦ c + length p ]

pub >>=-Ends :
    {A B : Type 0} (Bad : Message → Type 0) (m : Attempt A) (k : A → Attempt B) (a : A) (b : B)
    → Ends Bad m a
    → Ends Bad (k a) b
    → Ends Bad (m >>= k) b
>>=-Ends Bad m k a b (inl e) h = rw e h
>>=-Ends Bad m k a b (inr (e, failed, bad)) h = inr (e, rw failed refl, bad)

-- The message of a read inside the file that failed.
abbrev pub Unread : ByteSource → List ℕ → Message → Type 0
Unread source xs e = (k : ErrorKind) × (e ≡ failed_to_read k) × Fails source xs k

pub >>=_congr :
    {A B : Type 0} (m : Attempt A) (k k' : A → Attempt B)
    → ((a : A) → k a ≡ k' a)
    → (m >>= k) ≡ (m >>= k')
>>=_congr (done (ok a)) k k' h = h a
>>=_congr (done (err e)) k k' h = refl
>>=_congr panicked k k' h = refl
>>=_congr out_of_fuel k k' h = refl

byte_round-pattern_round :
    (source : ByteSource) (buffer_len d : ℕ) (next next' : ℕ → Attempt ℕ) (offset : ℕ)
    → ((o : ℕ) → next o ≡ next' o)
    → byte_round source buffer_len d next offset
      ≡ pattern_round source buffer_len (d ∷ []) next' offset
unfolding byte_round pattern_round
byte_round-pattern_round source buffer_len d next next' offset same_next =
    let w = min buffer_len (source.len - offset) in
    ap (λ (r : Attempt ℕ). if leb source.len offset then done (ok source.len) else r)
      (>>=_congr (map_err failed_to_read (fill_from source offset w)) _ _ λ buffer. ground (
        arith,
        search-singleton d buffer,
        find_first_pattern_from-search (d ∷ []) buffer (omega arith),
        same_next (saturating_add offset (length buffer)),
      ))

-- A delimiter of one byte is scanned for as a pattern of one byte is.
pub byte_scan-pattern_scan :
    (source : ByteSource) (buffer_len d fuel offset : ℕ)
    → byte_scan source buffer_len d fuel offset
      ≡ pattern_scan source buffer_len (d ∷ []) fuel offset
unfolding byte_scan pattern_scan
byte_scan-pattern_scan source buffer_len d zero offset = refl
byte_scan-pattern_scan source buffer_len d (suc fuel) offset =
    byte_round-pattern_round source buffer_len d (byte_scan source buffer_len d fuel)
      (pattern_scan source buffer_len (d ∷ []) fuel) offset
      (byte_scan-pattern_scan source buffer_len d fuel)

module _ (source : ByteSource) (xs : List ℕ) (serves : MayServe source xs) where
  pub fill_from-Ends :
      (offset want : ℕ)
      → offset + want ≤ length xs
      → Ends
          (Unread source xs)
          (map_err failed_to_read (fill_from source offset want))
          (take want (drop offset xs))
  unfolding fill_from
  fill_from-Ends offset want fits =
      elim (fill-Settles source xs serves (suc want) offset want 0 fits (omega arith)
        (omega arith)) [
          | inl e ↦ inl (ground arith)
          | inr (k, failed, f) ↦ inr (failed_to_read k, ground arith, (k, refl, f))
        ]

  module _ (p : List ℕ) (nonempty : 0 < length p) (small : length xs ≤ isize_max) (buffer_len : ℕ)
      (holds : length p ≤ buffer_len) where
    pattern_round-Ends :
        (next : ℕ → Attempt ℕ) (offset : ℕ)
        → ((o : ℕ)
            → offset < o
            → o ≤ length xs
            → Ends (Unread source xs) (next o) (next_end p xs o))
        → Ends
            (Unread source xs)
            (pattern_round source buffer_len p next offset)
            (next_end p xs offset)
    pattern_round-Ends next offset on =
        let size = serves.size in
        let w = min buffer_len (source.len - offset) in
        let ys = drop offset xs in
        let buffer = take w ys in
        let left = length-drop offset xs in
        let taken = length-take w ys in
        let found = find_first_pattern_from-search p buffer nonempty in
        elim (Bool-cases (leb source.len offset)) [
          | inl past ↦
              inl (unfold pattern_round next_end in ground (arith, search_from_end p xs offset))
          | inr before ↦ elim (fill_from-Ends offset w (ground arith)) [
            | inr (k, failed, bad) ↦ inr (k, unfold pattern_round in ground arith, bad)
            | inl filled ↦ elim (Option-cases (search p buffer)) [
              | inr (r, hit) ↦ inl (
                  unfold pattern_round next_end in
                  ground (
                    arith,
                    found,
                    search-take-some p ys w r hit,
                    search_fits p buffer r hit,
                    saturating_add_lem offset r,
                    saturating_add_lem (offset + r) (length p),
                  ))
              | inl miss ↦ elim (Bool-cases (leb source.len (offset + w))) [
                | inl whole ↦
                    let all : buffer ≡ ys = take_whole ys w (ground arith) in
                    let nowhere : search p ys ≡ none = sym (ap (search p) all) ∙ miss in
                    inl (
                      unfold pattern_round next_end in
                      ground (arith, found, saturating_add_lem offset w))
                | inr part ↦
                    let adv = max (w - (length p - 1)) 1 in
                    let step : pattern_round source buffer_len p next offset ≡ next (offset + adv) =
                      unfold pattern_round in
                      ground (
                        arith,
                        found,
                        saturating_add_lem offset w,
                        saturating_add_lem offset adv,
                      ) in
                    let same : next_end p xs offset ≡ next_end p xs (offset + adv) =
                      unfold next_end in
                      ground (
                        arith,
                        probe_miss xs p nonempty offset w (ground arith) (ground arith) miss,
                      ) in
                    rw (step, same) (on (offset + adv) (omega arith) (ground arith))
              ]
            ]
          ]
        ]

    pub pattern_scan-Ends :
        (fuel offset : ℕ)
        → offset ≤ length xs
        → length xs < fuel + offset
        → Ends
            (Unread source xs)
            (pattern_scan source buffer_len p fuel offset)
            (next_end p xs offset)
    unfolding pattern_scan
    pattern_scan-Ends zero offset inside e = absurd (omega arith)
    pattern_scan-Ends (suc fuel) offset inside e =
        pattern_round-Ends (pattern_scan source buffer_len p fuel) offset
          (λ o lt le. pattern_scan-Ends fuel o le (omega arith))
