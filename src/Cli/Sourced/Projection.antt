-- ===== src/Cli/Sourced/Projection.antt =====
-- `project_sourced_target`: with the source that the loop leaves open it gives the reference cut, or
-- reports what the system has reported.
use mmap_chunker_core.Base.{
  ℕ, ◌+◌, ◌-◌, ◌≤◌, ◌<◌, ◌≡◌, refl, arith, List, length, false, Bool-cases, get_elem?, Option, none,
  some, inl, inr, ◌⊎◌, ◌==◌, Io, done, ok, err, isize_max, usize_max,
}
use mmap_chunker_core.Scanner.Chunks.Laws.{IsDelimiter}
use mmap_chunker_core.Scanner.Partition.Reference.{snap_cut, snap_cut_bounds}
use mmap_chunker_core.Source.{ByteSource}
use mmap_chunker_core.Source.Planner.{PlannerOptions}
use mmap_chunker_core.Source.Failures.{MayServe}
use mmap_chunker_core.Cli.{
  Attempt, Message, failed_to_open, source_length_changed, ◌>>=◌, usize_to_u128,
}
use mmap_chunker_core.Cli.Boundary.{initial, settled}
use mmap_chunker_core.Cli.Boundary.Laws.{IsBehind}
use mmap_chunker_core.Cli.Logical.{contains}
use mmap_chunker_core.Cli.Logical.Reference.{total, sums, logical_cut}
use mmap_chunker_core.Cli.Logical.Projection.{Lies, locate, contains-logical_cut}
use mmap_chunker_core.Cli.Logical.Rounds.{Projects}
use mmap_chunker_core.Cli.Sourced.{
  OpenSourced, open_sourced, open_fresh, reopen, next_record_boundary_sourced,
  project_sourced_target,
}
use mmap_chunker_core.Cli.Sourced.Boundary.{next_record_boundary_sourced-Ends}
use mmap_chunker_core.Cli.Sourced.Answers.{Both, Both-get_elem?, At, Answers, Reported}

module _ {FilePath : Type 0} (open_windowed : FilePath → ℕ → Io ByteSource)
    (open_pread : FilePath → Io ByteSource) (options : PlannerOptions)
    (stat : FilePath → Io ℕ) where
  module _ (paths : List FilePath) (files : List (List ℕ)) where
    abbrev Answered : FilePath → List ℕ → Type 0
    Answered = Answers open_windowed open_pread options stat

    abbrev Reports : Message → Type 0
    Reports = Reported open_windowed open_pread options stat paths files

    -- A source that is open stands behind the targets that are still to come.
    pub record Held (last : ℕ) (held : OpenSourced) : Type 0 where
      pub base : ℕ
      pub bytes : List ℕ
      pub path : FilePath
      pub prefix : get_elem? (sums 0 files) held.index ≡ some base
      pub at : At paths files held.index path bytes
      pub opened : open_sourced open_windowed open_pread options path ≡ done (ok held.source)
      pub serves : MayServe held.source bytes
      pub behind : (t : ℕ) → last < base + t → IsBehind held.state t

    abbrev pub IsOnward : ℕ → Option OpenSourced → Type 0
    IsOnward last none = Unit {0}
    IsOnward last (some held) = Held last held

    IsOnward-later :
        (last later : ℕ) (current : Option OpenSourced)
        → last ≤ later
        → IsOnward last current
        → IsOnward later current
    IsOnward-later last later none h inv = tt
    IsOnward-later last later (some held) h inv = record {
      base = inv.base;
      bytes = inv.bytes;
      path = inv.path;
      prefix = inv.prefix;
      at = inv.at;
      opened = inv.opened;
      serves = inv.serves;
      behind = λ t ahead. inv.behind t (omega arith);
    }

    module _ (last k b : ℕ) (xs : List ℕ) (path : FilePath)
        (prefix : get_elem? (sums 0 files) k ≡ some b) (at : At paths files k path xs)
        (answers : Answered path xs) (small : length xs ≤ usize_max) where
      -- The source that is to be searched for a target, or a report.
      abbrev Reopens : Attempt OpenSourced → Type 0
      Reopens run =
          ((held : OpenSourced) × (run ≡ done (ok held)) × (held.index ≡ k) × Held last held)
          ⊎ ((e : Message) × (run ≡ done (err e)) × Reports e)

      open_fresh-Reopens :
          Reopens (open_fresh open_windowed open_pread options k path (b + length xs - b))
      unfolding open_fresh usize_to_u128
      open_fresh-Reopens = elim answers.opened [
        | inl (source, opened, serves) ↦
            let held : OpenSourced = record { index = k; source = source; state = initial } in
            inl (
              held,
              ground (arith, opened, serves.size),
              refl,
              record {
                base = b;
                bytes = xs;
                path = path;
                prefix = prefix;
                at = at;
                opened = opened;
                serves = serves;
                behind = λ t later. ground arith;
              },
            )
        | inr (inl (source, opened, addressable, other)) ↦ inr (
          source_length_changed,
          ground (arith, opened, other),
          Reported.changed k path xs source at opened other,
        )
        | inr (inr (r, failed)) ↦
            inr (failed_to_open r, ground (arith, failed), Reported.unopened k path xs r at failed)
      ]

      reopen-Reopens :
          (current : Option OpenSourced)
          → IsOnward last current
          → Reopens (reopen open_windowed open_pread options current k path (b + length xs - b))
      unfolding reopen
      reopen-Reopens none inv = open_fresh-Reopens
      reopen-Reopens (some held) inv = elim (Bool-cases (held.index == k)) [
        | inl same ↦ inl (held, rw same refl, ground arith, inv)
        | inr other ↦ rw other open_fresh-Reopens
      ]

    module _ (p : List ℕ) (buffer_len : ℕ) (small : total files ≤ isize_max) where
      -- What is done once the source of a target is open.
      abbrev search_held : ℕ → ℕ → OpenSourced → Attempt (ℕ × Option OpenSourced)
      search_held b local_target held =
          next_record_boundary_sourced held.source buffer_len local_target held.state p
          >>= λ (boundary, state). usize_to_u128 boundary >>= λ widened.
              done (ok (b + widened, some (record held { state = state })))

      project_sourced_target_inside :
          (t k b : ℕ) (xs : List ℕ) (path : FilePath) (current : Option OpenSourced)
          → contains t (sums 0 files) ≡ false
          → Lies p files 0 t k b xs
          → get_elem? paths k ≡ some path
          → project_sourced_target open_windowed open_pread options buffer_len paths p
              (sums 0 files)
              t
              current
            ≡ (reopen open_windowed open_pread options current k path (b + length xs - b)
                >>= search_held b (t - b))
      unfolding project_sourced_target
      project_sourced_target_inside t k b xs path current interior lies at =
          ground (arith, lies.point, lies.prefix, lies.next, lies.within, lies.behind, lies.inside)

      module _ (del : IsDelimiter p) (holds : length p ≤ buffer_len) where
        -- What the law of the loop asks of a projection of `t`.
        abbrev Projected : ℕ → Attempt (ℕ × Option OpenSourced) → Type 0
        Projected t run =
            ((next : Option OpenSourced) × (run ≡ done (ok (logical_cut p files t, next)))
              × IsOnward (logical_cut p files t) next)
            ⊎ ((e : Message) × (run ≡ done (err e)) × Reports e)

        search_held-Projected :
            (last t b : ℕ) (xs : List ℕ) (held : OpenSourced)
            → last < t
            → Lies p files 0 t held.index b xs
            → Held last held
            → Projected t (search_held b (t - b) held)
        unfolding usize_to_u128
        search_held-Projected last t b xs held ahead lies h =
            let base : h.base ≡ b = ground (arith, h.prefix, lies.prefix) in
            let same : h.bytes ≡ xs = ground (arith, h.at, lies.file) in
            let serves : MayServe held.source xs = rw (← same) h.serves in
            let cut = snap_cut p xs (t - b) in
            let whole : logical_cut p files t ≡ b + cut = ground (arith, lies.same) in
            let inside : t - b < length xs = omega (arith, lies.inside, lies.behind) in
            let bounds = snap_cut_bounds p xs (t - b) inside in
            elim (next_record_boundary_sourced-Ends held.source xs serves
              (omega (arith, lies.within)) buffer_len (t - b) held.state
              (h.behind (t - b) (omega (arith, base, lies.behind))) inside p del holds) [
                | inl e ↦ inl (
                  some (record held { state = settled cut }),
                  ground (arith, e, whole, bounds, lies.within),
                  record {
                    base = b;
                    bytes = xs;
                    path = h.path;
                    prefix = rw (← base) h.prefix;
                    at = rw (← same) h.at;
                    opened = h.opened;
                    serves = serves;
                    behind = λ u later. ground (arith, whole);
                  },
                )
                | inr (e, failed, (r, is_read, fails)) ↦ inr (
                  e,
                  rw failed refl,
                  rw is_read (
                      Reported.unread held.index h.path xs held.source r (rw (← same) h.at) h.opened
                        fails),
                )
              ]

        pub project_sourced_target-Projects :
            Both Answered paths files
            → Projects
                (project_sourced_target open_windowed open_pread options buffer_len paths p
                  (sums 0 files))
                (logical_cut p files)
                (total files)
                IsOnward
                Reports
        project_sourced_target-Projects answers t last current inv ahead inside =
            elim (Bool-cases (contains t (sums 0 files))) [
              | inl boundary ↦
                  let same = contains-logical_cut p files 0 t boundary in
                  inl (
                    current,
                    unfold project_sourced_target in ground (arith, same),
                    IsOnward-later last (logical_cut p files t) current (ground (arith, same)) inv,
                  )
              | inr interior ↦
                  let (k, b, xs, lies) = locate p files 0 t (omega arith) (omega arith) interior in
                  let (path, at, answer) =
                    Both-get_elem? Answered paths files k xs answers lies.file in
                  let step = project_sourced_target_inside t k b xs path current interior lies at in
                  elim (reopen-Reopens last k b xs path lies.prefix (at, lies.file) answer
                    (omega (arith, lies.within)) current inv) [
                      | inr (e, failed, reported) ↦ inr (e, rw (step, failed) refl, reported)
                      | inl (held, reopened, index, h) ↦
                          rw (step, reopened)
                            (search_held-Projected last t b xs held ahead (rw index lies) h)
                    ]
            ]
