-- ===== src/Tests/Engines.antt =====
-- Engines of the C surface on "a\nbb\nc", pinned and not.
use mathlib.Core.Path.{subst}
use mmap_chunker_core.Base.{
  ok, true, ℕ, zero, suc, ◌+◌, List, [], ◌∷◌, length, ◌≤◌, ◌<◌, ◌≡◌, refl, arith, take, none, some,
  done, Returns, inl, if◌then◌else◌,
}
use mmap_chunker_core.Slice.{len}
use mmap_chunker_core.Plan.{empty, count}
use mmap_chunker_core.Chunker.{check_pinned, get_chunk}
use mmap_chunker_core.Chunker.Ops.{delimited, perform}
use mmap_chunker_core.Chunker.Laws.{IsValid}
use mmap_chunker_core.Ffi.{Message, Engine, World}
use mmap_chunker_core.Ffi.Errors.{
  set_error, clear_error, last_error, last_error_lem, c_string, max_error_len,
}
use mmap_chunker_core.Ffi.Entries.{mmap_engine_get_chunk}
use mmap_chunker_core.Ffi.Open.{mmap_engine_capabilities}
use mmap_chunker_core.Ffi.Refinement.{scan_chunks, scan_chunks_pattern, enter, response, enter_lem}
use mmap_chunker_core.Ffi.Parity.{library, holding, enter-perform, IsValidWorld, enter-IsValidWorld}
use mmap_chunker_core.Ffi.View.{view_bytes, mmap_engine_get_chunk-get_chunk}
use mmap_chunker_core.Base.{Io}
use mmap_chunker_core.Source.{ByteSource}
use mmap_chunker_core.Source.Planner.{pread_mode}
use mmap_chunker_core.Ranges.{Range}
use mmap_chunker_core.Scanner.Partition.{find_partition_boundaries_pattern}
use mmap_chunker_core.Ffi.{cleared}
use mmap_chunker_core.Ffi.Plans.{
  written, too_small, mmap_engine_plan_partition_ranges,
  mmap_engine_plan_partition_ranges-find_partition_boundaries_pattern,
}
use mmap_chunker_core.Tests.Sources.{dribbled, dribbled-Serves, always}
use mmap_chunker_core.Tests.Scans.{crlf, crlf-IsSlice, eol, eol-IsDelimiter}
use mmap_chunker_core.Tests.Scans.{lines, lines-IsSlice}
use mmap_chunker_core.Tests.Handles.{stat, pin}

-- Every message is "no".
abbrev pub text : Message → List ℕ
text m = 110 ∷ 111 ∷ []

abbrev zeros : ℕ → List ℕ
zeros zero = []
zeros (suc n) = 0 ∷ zeros n

abbrev engine : Engine (Unit {0})
engine = record { mmap = lines; plan = empty; pin = some pin }

abbrev pub world : World (Unit {0})
world = holding engine (zeros 256)

engine-IsValid : IsValid (library engine)
engine-IsValid = record { mapped = lines-IsSlice; planned = inl refl }

world-IsValidWorld : IsValidWorld world
world-IsValidWorld e h =
    let same : engine ≡ e = ground arith in subst (λ x. IsValid (library x)) same engine-IsValid

capabilities_test : mmap_engine_capabilities ≡ 0x1ff
unfolding mmap_engine_capabilities
capabilities_test = refl

last_error_lem_example :
    (last_error (set_error (110 ∷ 111 ∷ []) (zeros 256))
      ≡ done (some (set_error (110 ∷ 111 ∷ []) (zeros 256))))
    × (c_string (set_error (110 ∷ 111 ∷ []) (zeros 256)) ≡ take 255 (110 ∷ 111 ∷ []))
    × (length (set_error (110 ∷ 111 ∷ []) (zeros 256)) ≡ max_error_len)
    × (last_error (clear_error (set_error (110 ∷ 111 ∷ []) (zeros 256))) ≡ done none)
last_error_lem_example =
    last_error_lem (110 ∷ 111 ∷ []) (zeros 256) refl ((λ e. omega arith), ((λ e. omega arith), tt))
      (omega arith)

enter_lem_example :
    enter text stat (scan_chunks_pattern 1 (some (10 ∷ [])) 1) world
    ≡ done (response text stat (scan_chunks_pattern 1 (some (10 ∷ [])) 1) world)
enter_lem_example =
    enter_lem text stat (scan_chunks_pattern 1 (some (10 ∷ [])) 1) world
      ((omega arith, tt), omega arith) (λ e h. (world-IsValidWorld e h).mapped)

enter-IsValidWorld_example :
    Returns (enter text stat (scan_chunks 1) world) (λ (n, w'). IsValidWorld w')
enter-IsValidWorld_example =
    enter-IsValidWorld text stat (scan_chunks 1) world tt world-IsValidWorld

enter-perform_example : Returns (perform stat (delimited 1 10) (library engine)) (λ (n, c').
    Returns (enter text stat (scan_chunks 1) world) (λ (m, w').
      (m ≡ n)
      × ((engine' : Engine (Unit {0})) × (w'.handle ≡ some engine')
          × (engine'.mmap ≡ c'.mmap)
          × (engine'.pin ≡ c'.pinned)
          × (if (check_pinned stat (library engine)).1
              then engine'.plan ≡ c'.plan
              else (engine'.plan ≡ empty) × (c'.plan ≡ empty)))))
enter-perform_example =
    enter-perform text stat (scan_chunks 1) (delimited 1 10) engine (zeros 256) tt refl refl
      lines-IsSlice

mmap_engine_get_chunk-get_chunk_example :
    Returns (mmap_engine_get_chunk text 0 (some tt) world) (λ (view, w').
      (get_chunk (library engine) 0
        ≡ done (elim view [ none ↦ none | some v ↦ some (view_bytes lines v) ]))
      × (w'.handle ≡ some engine)
      × (elim view [
        | none ↦ count engine.plan ≤ 0
        | some v ↦ (5 ≤ v.data_ptr) × (v.data_ptr + v.len ≤ 5 + len lines)
      ]))
mmap_engine_get_chunk-get_chunk_example =
    mmap_engine_get_chunk-get_chunk text engine (zeros 256) 0 engine-IsValid

abbrev opens : Unit {0} → Io ByteSource
opens u = ok dribbled

-- The plan has three ranges, and the array has room for exactly three.
mmap_engine_plan_partition_ranges-find_partition_boundaries_pattern_example :
    let run =
      mmap_engine_plan_partition_ranges text always 8 opens
        (λ u n. ok dribbled)
        opens
        (some tt)
        3
        (some eol)
        2
        2
        65536
        true
        3
        true
        world in
    (rs : List Range) × (find_partition_boundaries_pattern crlf 3 (take 2 eol) ≡ done rs)
    × (length rs ≤ 3 → run ≡ done (written rs, cleared text world))
    × (3 < length rs → run ≡ done (too_small (length rs), cleared text world))
mmap_engine_plan_partition_ranges-find_partition_boundaries_pattern_example =
    mmap_engine_plan_partition_ranges-find_partition_boundaries_pattern text always 8 opens
      (λ u n. ok dribbled) opens tt 3 eol 2 pread_mode 65536 true 3 world dribbled crlf refl
      dribbled-Serves crlf-IsSlice eol-IsDelimiter (omega arith) (omega arith) (omega arith)
      (λ room. refl) refl
