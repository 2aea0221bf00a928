-- ===== src/Pin/Laws.antt =====
-- When a pin holds, when it trips and with which kind, and which flags are accepted.
use mmap_chunker_core.Base.{
  Bool-cases, ℕ, zero, suc, ◌/◌, ◌%◌, ◌≤◌, ◌<◌, ◌≡◌, ◌≢◌, refl, arith, Option, none, some, true,
  false, ◌==◌, ◌||◌, ◌⊎◌, inl, inr, ◌↔◌, ltb, if◌then◌else◌, Result, Result-cases, ok, err, Io,
  ErrorKind, invalid_input,
}
use mmap_chunker_core.Bits.Digits.{bit_and_high}
use mmap_chunker_core.Pin.{
  pin_size, pin_identity, pin_mtime, u32_max, effective_flags, Metadata, FileIdentity,
  capture_from_metadata, PinMismatchKind, rotated, replaced, truncated, mtime_jump,
  metadata_unavailable, Detail, PinMismatch, mismatch, PinnedFile, enabled, times_differ,
  compare_identity, capture, revalidate,
}

-- The classes that flags ask for, as their lowest three digits: 1 is the size, 2 the key and 4 the time of
-- modification. No flags ask for all three.
abbrev pub AsksSize : ℕ → Type 0
AsksSize flags = (flags ≡ 0) ⊎ (flags % 2 ≡ 1)

abbrev pub AsksKey : ℕ → Type 0
AsksKey flags = (flags ≡ 0) ⊎ (flags / 2 % 2 ≡ 1)

abbrev pub AsksTime : ℕ → Type 0
AsksTime flags = (flags ≡ 0) ⊎ (flags / 4 % 2 ≡ 1)

-- The path has the device and the inode, the size, or the time of the snapshot. Times are compared when
-- both are known.
abbrev pub SameKey : FileIdentity → Metadata → Type 0
SameKey old meta = (meta.dev ≡ old.dev) × (meta.ino ≡ old.ino)

abbrev pub SameSize : FileIdentity → Metadata → Type 0
SameSize old meta = meta.size ≡ old.size

abbrev pub SameTime : FileIdentity → Metadata → Type 0
SameTime old meta = (a b : ℕ) → old.mtime ≡ some a → meta.modified ≡ some b → a ≡ b

-- What `stat` tells agrees with the snapshot in every class that the flags ask for.
pub record Agrees (flags : ℕ) (old : FileIdentity) (meta : Metadata) : Type 0 where
  pub key : AsksKey flags → SameKey old meta
  pub size : AsksSize flags → SameSize old meta
  pub time : AsksTime flags → SameTime old meta

-- What each kind of mismatch says of the two, the classes before it in agreement.
abbrev pub Explains : ℕ → FileIdentity → Metadata → PinMismatchKind → Type 0
Explains flags old meta rotated = ⊥
Explains flags old meta metadata_unavailable = ⊥
Explains flags old meta replaced = AsksKey flags × ((meta.dev ≢ old.dev) ⊎ (meta.ino ≢ old.ino))
Explains flags old meta truncated =
    (AsksKey flags → SameKey old meta) × AsksSize flags × (meta.size ≢ old.size)
Explains flags old meta mtime_jump =
    (AsksKey flags → SameKey old meta)
    × (AsksSize flags → SameSize old meta)
    × AsksTime flags
    × ((a : ℕ) × (b : ℕ) × (old.mtime ≡ some a) × (meta.modified ≡ some b) × (a ≢ b))

-- The flags that are accepted are the combinations of the three known bits.
pub effective_flags_lem :
    (flags : ℕ)
    → flags ≤ u32_max
    → effective_flags flags
      ≡ (if ltb 7 flags then err invalid_input else if flags == 0 then ok 7 else ok flags)
unfolding effective_flags
effective_flags_lem flags h = ground (arith, bit_and_high 29 flags (omega arith))

times_differ-true :
    (o n : Option ℕ)
    → times_differ o n ≡ true
    → (a : ℕ) × (b : ℕ) × (o ≡ some a) × (n ≡ some b) × (a ≢ b)
times_differ-true (some a) (some b) h = (a, b, refl, refl, ground arith)
times_differ-true (some a) none h = cc
times_differ-true none n h = cc

times_differ-false :
    (o n : Option ℕ) (a b : ℕ) → times_differ o n ≡ false → o ≡ some a → n ≡ some b → a ≡ b
times_differ-false (some x) (some y) a b h p q = ground arith
times_differ-false (some x) none a b h p q = cc
times_differ-false none n a b h p q = cc

times_same :
    (o n : Option ℕ) → ((a b : ℕ) → o ≡ some a → n ≡ some b → a ≡ b) → times_differ o n ≡ false
times_same (some a) (some b) h = ground (arith, h a b refl refl)
times_same (some a) none h = refl
times_same none n h = refl

-- The mask that accepted flags stand for.
abbrev mask_of : ℕ → ℕ
mask_of flags = if flags == 0 then 7 else flags

enabled_table :
    (flags : ℕ)
    → flags ≤ 7
    → (enabled (mask_of flags) pin_size ≡ ((flags == 0) || (flags % 2 == 1)))
      × (enabled (mask_of flags) pin_identity ≡ ((flags == 0) || (flags / 2 % 2 == 1)))
      × (enabled (mask_of flags) pin_mtime ≡ ((flags == 0) || (flags / 4 % 2 == 1)))
enabled_table zero h = (refl, refl, refl)
enabled_table (suc zero) h = (refl, refl, refl)
enabled_table (suc (suc zero)) h = (refl, refl, refl)
enabled_table (suc (suc (suc zero))) h = (refl, refl, refl)
enabled_table (suc (suc (suc (suc zero)))) h = (refl, refl, refl)
enabled_table (suc (suc (suc (suc (suc zero))))) h = (refl, refl, refl)
enabled_table (suc (suc (suc (suc (suc (suc zero)))))) h = (refl, refl, refl)
enabled_table (suc (suc (suc (suc (suc (suc (suc zero))))))) h = (refl, refl, refl)
enabled_table (suc (suc (suc (suc (suc (suc (suc (suc flags)))))))) h = absurd (omega arith)

asked : (flags digit : ℕ) → (((flags == 0) || (digit == 1)) ≡ true) ↔ ((flags ≡ 0) ⊎ (digit ≡ 1))
asked flags digit = (λ e. ground arith, λ e. ground arith)

-- The bit of a class is set where the flags ask for it.
enabled_mask :
    (flags : ℕ)
    → flags ≤ 7
    → ((enabled (mask_of flags) pin_size ≡ true) ↔ AsksSize flags)
      × ((enabled (mask_of flags) pin_identity ≡ true) ↔ AsksKey flags)
      × ((enabled (mask_of flags) pin_mtime ≡ true) ↔ AsksTime flags)
enabled_mask flags h =
    let (size, key, time) = enabled_table flags h in
    rw (size, key, time)
      (asked flags (flags % 2), asked flags (flags / 2 % 2), asked flags (flags / 4 % 2))

module _ (flags : ℕ) (old : FileIdentity) (meta : Metadata) (known : flags ≤ 7) where
  abbrev result : Result PinMismatch (Unit {0})
  result = compare_identity (mask_of flags) old (capture_from_metadata meta)

  compare_ok : result ≡ ok tt → Agrees flags old meta
  unfolding compare_identity capture_from_metadata
  compare_ok h =
      let (on_size, on_key, on_time) = enabled_mask flags known in
      record {
        key = λ e. let on = on_key.1 e in ground arith;
        size = λ e. let on = on_size.1 e in ground arith;
        time = λ e a b p q.
            let on = on_time.1 e in ground (arith, times_differ-false old.mtime meta.modified a b);
      }

  compare_Agrees : Agrees flags old meta → result ≡ ok tt
  unfolding compare_identity capture_from_metadata
  compare_Agrees a =
      let (on_size, on_key, on_time) = enabled_mask flags known in
      ground (
        arith,
        λ (e : enabled (mask_of flags) pin_identity ≡ true). a.key (on_key.0 e),
        λ (e : enabled (mask_of flags) pin_size ≡ true). a.size (on_size.0 e),
        λ (e : enabled (mask_of flags) pin_mtime ≡ true).
            times_same old.mtime meta.modified (a.time (on_time.0 e)),
      )

  compare_err :
      (kind : PinMismatchKind) (detail : Detail)
      → result ≡ mismatch kind detail
      → Explains flags old meta kind
  unfolding compare_identity capture_from_metadata
  compare_err rotated detail h = ground arith
  compare_err metadata_unavailable detail h = ground arith
  compare_err replaced detail h =
      let (on_size, on_key, on_time) = enabled_mask flags known in
      (on_key.0 (ground arith), ground arith)
  compare_err truncated detail h =
      let (on_size, on_key, on_time) = enabled_mask flags known in
      (λ e. let on = on_key.1 e in ground arith, on_size.0 (ground arith), ground arith)
  compare_err mtime_jump detail h =
      let (on_size, on_key, on_time) = enabled_mask flags known in
      (
        λ e. let on = on_key.1 e in ground arith,
        λ e. let on = on_size.1 e in ground arith,
        on_time.0 (ground arith),
        times_differ-true old.mtime meta.modified (ground arith),
      )

module _ {FilePath : Type 0} (metadata : FilePath → Io Metadata)
    (pinned : PinnedFile FilePath) where
  -- The pin holds of what `stat` tells now.
  abbrev pub Holds : Type 0
  Holds =
      (pinned.flags ≤ 7)
      × ((meta : Metadata) × (metadata pinned.path ≡ ok meta)
          × Agrees pinned.flags pinned.identity meta)

  -- Why the pin has tripped: it cannot be checked, or the first class in which the snapshots differ.
  abbrev pub Trips : PinMismatchKind → Type 0
  Trips kind =
      ((kind ≡ metadata_unavailable)
        × ((7 < pinned.flags) ⊎ ((e : ErrorKind) × (metadata pinned.path ≡ err e))))
      ⊎ ((pinned.flags ≤ 7)
          × ((meta : Metadata) × (metadata pinned.path ≡ ok meta)
              × Explains pinned.flags pinned.identity meta kind))

  module _ (fits : pinned.flags ≤ u32_max) where
    revalidate_Holds : revalidate metadata pinned ≡ ok tt → Holds
    unfolding revalidate
    revalidate_Holds h =
        let flags = effective_flags_lem pinned.flags fits in
        elim (Bool-cases (ltb 7 pinned.flags)) [
          | inl unknown ↦ absurd (ground arith)
          | inr known ↦ elim (Result-cases (metadata pinned.path)) [
            | inr (e, q) ↦ absurd (ground arith)
            | inl (meta, q) ↦ (
              ground arith,
              (
                meta,
                q,
                compare_ok pinned.flags pinned.identity meta (ground arith) (ground (arith, flags)),
              ),
            )
          ]
        ]

    Holds_revalidate : Holds → revalidate metadata pinned ≡ ok tt
    unfolding revalidate
    Holds_revalidate (known, (meta, q, a)) = ground (
      arith,
      effective_flags_lem pinned.flags fits,
      compare_Agrees pinned.flags pinned.identity meta known a,
    )

    -- `revalidate` accepts exactly when the flags are a combination of the three known bits, the path can be
    -- read, and what `stat` tells of it agrees with the snapshot in every class that the flags ask for,
    -- where no flags ask for all: the size (1), device and inode (2), and the time of modification (4) where
    -- both have one. The flags fit 32 bits.
    pub revalidate_iff : (revalidate metadata pinned ≡ ok tt) ↔ Holds
    revalidate_iff = (revalidate_Holds, Holds_revalidate)

    -- Every mismatch that `revalidate` reports has its cause: `metadata_unavailable` when the flags are
    -- unknown or the path cannot be read, `replaced` when device or inode differ, `truncated` when the
    -- size does and the key does not, `mtime_jump` when only a later class does, each in a class that the
    -- flags ask for. `rotated` is never reported.
    pub revalidate-mismatch :
        (kind : PinMismatchKind) (detail : Detail)
        → revalidate metadata pinned ≡ mismatch kind detail
        → Trips kind
    unfolding revalidate
    revalidate-mismatch kind detail h =
        let flags = effective_flags_lem pinned.flags fits in
        elim (Bool-cases (ltb 7 pinned.flags)) [
          | inl unknown ↦ inl (ground arith, inl (ground arith))
          | inr known ↦ elim (Result-cases (metadata pinned.path)) [
            | inr (e, q) ↦ inl (ground arith, inr (e, q))
            | inl (meta, q) ↦ inr (
              ground arith,
              (
                meta,
                q,
                compare_err pinned.flags pinned.identity meta (ground arith) kind detail
                    (ground (arith, flags)),
              ),
            )
          ]
        ]

Agrees-captured : (flags : ℕ) (meta : Metadata) → Agrees flags (capture_from_metadata meta) meta
unfolding capture_from_metadata
Agrees-captured flags meta = record {
  key = λ e. (refl, refl);
  size = λ e. refl;
  time = λ e a b p q. ground arith;
}

-- The three outcomes of `capture`.
pub capture_lem :
    {FilePath : Type 0} (metadata : FilePath → Io Metadata) (path : FilePath) (flags : ℕ)
    → flags ≤ u32_max
    → (7 < flags → capture metadata path flags ≡ err invalid_input)
      × (flags ≤ 7 → (e : ErrorKind) → metadata path ≡ err e → capture metadata path flags ≡ err e)
      × (flags ≤ 7
          → (meta : Metadata) → metadata path ≡ ok meta
          → (pinned : PinnedFile FilePath) × (capture metadata path flags ≡ ok pinned)
            × (revalidate metadata pinned ≡ ok tt))
unfolding capture
capture_lem {FilePath} metadata path flags h = (
  λ big. ground (arith, effective_flags_lem flags h),
  λ small e q. ground (arith, effective_flags_lem flags h),
  λ small meta q.
      let pinned : PinnedFile FilePath = record {
        path = path;
        identity = capture_from_metadata meta;
        flags = flags;
      } in
      (
        pinned,
        ground (arith, effective_flags_lem flags h),
        Holds_revalidate metadata pinned h (small, (meta, q, Agrees-captured flags meta)),
      ),
)

-- What `capture` captures holds as long as the path reads the same: `revalidate` accepts it then.
pub capture-revalidate :
    {FilePath : Type 0} (metadata : FilePath → Io Metadata) (path : FilePath) (flags : ℕ)
    (pinned : PinnedFile FilePath)
    → flags ≤ u32_max
    → capture metadata path flags ≡ ok pinned
    → revalidate metadata pinned ≡ ok tt
capture-revalidate metadata path flags pinned h e =
    let (big, unread, read) = capture_lem metadata path flags h in
    elim (Bool-cases (ltb 7 flags)) [
      | inl unknown ↦ absurd (ground (arith, big))
      | inr known ↦ elim (Result-cases (metadata path)) [
        | inr (k, q) ↦ absurd (ground (arith, unread (ground arith) k q))
        | inl (meta, q) ↦
            let (other, made, holds) = read (ground arith) meta q in
            let same : other ≡ pinned = ground arith in rw same at holds
      ]
    ]
