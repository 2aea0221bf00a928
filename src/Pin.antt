-- ===== src/Pin.antt =====
-- src/pin.rs on a Unix target: the identity of a path, captured once and checked again before each
-- plan. What `std::fs::metadata` returns is an argument of each call. A mismatch keeps the values that
-- its text shows.
pub mod Laws
use Prim.Native.Nat.{bit_and}
use mmap_chunker_core.Base.{
  ℕ, ◌-◌, Option, none, some, Bool, false, not, ◌&&◌, ◌||◌, ◌==◌, if◌then◌else◌, Result, ok, err,
  Io, ErrorKind, invalid_input,
}

abbrev pub pin_size : ℕ
pin_size = 1

abbrev pub pin_identity : ℕ
pin_identity = 2

abbrev pub pin_mtime : ℕ
pin_mtime = 4

-- `PIN_SIZE | PIN_IDENTITY | PIN_MTIME`, which is also the mask of known bits.
abbrev pub pin_all : ℕ
pin_all = 7

abbrev pub u32_max : ℕ
u32_max = 0xffff_ffff

-- `flags & !PIN_KNOWN_MASK != 0`
abbrev pub has_unknown_bits : ℕ → Bool
has_unknown_bits flags = not (bit_and flags (u32_max - pin_all) == 0)

unfoldable pub effective_flags : ℕ → Io ℕ
effective_flags flags =
    if has_unknown_bits flags
    then err invalid_input
    else if flags == 0
    then ok pin_all
    else ok flags

-- What `stat` tells of a path; the time of modification may be unavailable.
pub record Metadata : Type 0 where
  pub size : ℕ
  pub modified : Option ℕ
  pub dev : ℕ
  pub ino : ℕ

pub record FileIdentity : Type 0 where
  pub size : ℕ
  pub mtime : Option ℕ
  pub dev : ℕ
  pub ino : ℕ

unfoldable pub capture_from_metadata : Metadata → FileIdentity
capture_from_metadata meta = record {
  size = meta.size;
  mtime = meta.modified;
  dev = meta.dev;
  ino = meta.ino;
}

pub data PinMismatchKind : Type 0 where
  rotated replaced truncated mtime_jump metadata_unavailable : PinMismatchKind

-- The values that the text of a mismatch names.
pub data Detail : Type 0 where
  invalid_flags : ErrorKind → Detail
  cannot_stat : ErrorKind → Detail
  key_changed : ℕ → ℕ → ℕ → ℕ → Detail
  size_changed : ℕ → ℕ → Detail
  time_changed : Detail

pub record PinMismatch : Type 0 where
  pub kind : PinMismatchKind
  pub detail : Detail

abbrev pub mismatch : PinMismatchKind → Detail → Result PinMismatch (Unit {0})
mismatch kind detail = err (record { kind = kind; detail = detail })

pub record PinnedFile (FilePath : Type 0) : Type 0 where
  pub path : FilePath
  pub identity : FileIdentity
  pub flags : ℕ

-- `flags & class != 0`
abbrev pub enabled : ℕ → ℕ → Bool
enabled mask bit = not (bit_and mask bit == 0)

-- Two times that are both known and differ.
abbrev pub times_differ : Option ℕ → Option ℕ → Bool
times_differ (some old) (some new) = not (old == new)
times_differ (some old) none = false
times_differ none new = false

-- The comparison of `revalidate`, first mismatch first.
unfoldable pub compare_identity : ℕ → FileIdentity → FileIdentity → Result PinMismatch (Unit {0})
compare_identity mask old new =
    if enabled mask pin_identity && (not (new.dev == old.dev) || not (new.ino == old.ino))
    then mismatch replaced (key_changed old.dev old.ino new.dev new.ino)
    else if enabled mask pin_size && not (new.size == old.size)
    then mismatch truncated (size_changed old.size new.size)
    else if enabled mask pin_mtime && times_differ old.mtime new.mtime
    then mismatch mtime_jump time_changed
    else ok tt

module _ {FilePath : Type 0} (metadata : FilePath → Io Metadata) where
  unfoldable pub capture : FilePath → ℕ → Io (PinnedFile FilePath)
  capture path flags = elim (effective_flags flags) [
    | err e ↦ err e
    | ok mask ↦ elim (metadata path) [
      | err e ↦ err e
      | ok meta ↦ ok (record { path = path; identity = capture_from_metadata meta; flags = flags })
    ]
  ]

  unfoldable pub revalidate : PinnedFile FilePath → Result PinMismatch (Unit {0})
  revalidate pinned = elim (effective_flags pinned.flags) [
    | err e ↦ mismatch metadata_unavailable (invalid_flags e)
    | ok mask ↦ elim (metadata pinned.path) [
      | err e ↦ mismatch metadata_unavailable (cannot_stat e)
      | ok meta ↦ compare_identity mask pinned.identity (capture_from_metadata meta)
    ]
  ]
