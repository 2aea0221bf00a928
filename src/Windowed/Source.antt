-- ===== src/Windowed/Source.antt =====
-- `WindowedMmapSource` of src/source.rs. The source keeps its file behind a lock and reads through the
-- view that is cached at the time; here the source stands for any such state.
use mmap_chunker_core.Base.{
  ℕ, ◌+◌, ◌-◌, ◌≤◌, arith, min, max, List, length, none, ok, err, Io, isize_max,
}
use mmap_chunker_core.Source.{ByteSource, Serves}
use mmap_chunker_core.Windowed.{WindowedMmapFile, read_at}
use mmap_chunker_core.Windowed.Laws.{Maps, IsWindow, read_at_lem}

unfoldable pub windowed_source : (ℕ → ℕ → Io (List ℕ)) → WindowedMmapFile → ByteSource
windowed_source mmap file = record {
  len = file.size;
  read_at = λ offset out_len. elim (read_at mmap file offset out_len) [
    | err e ↦ err e
    | ok (bytes, file') ↦ ok bytes
  ];
  as_slice = none;
}

IsWindow-le :
    (xs : List ℕ) (cap more : ℕ) (file : WindowedMmapFile)
    → IsWindow xs cap file
    → IsWindow xs (cap + more) file
IsWindow-le xs cap more file v = record {
  size = v.size;
  viewed = λ view e.
      let w = v.viewed view e in
      record {
        aligned = w.aligned;
        inside = w.inside;
        shows = w.shows;
        bounded = omega (arith, w.bounded);
      };
}

-- A windowed file is an honest source of its bytes, whichever view is cached and whatever the window is.
pub windowed_source-Serves :
    (mmap : ℕ → ℕ → Io (List ℕ)) (xs : List ℕ) (cap : ℕ) (file : WindowedMmapFile)
    → Maps mmap xs
    → length xs ≤ isize_max
    → IsWindow xs cap file
    → Serves (windowed_source mmap file) xs
unfolding windowed_source
windowed_source-Serves mmap xs cap file maps small v = record {
  size = v.size;
  reads = λ offset n pos inside.
      let more = max file.window_bytes n + 65535 in
      let (file', read, v', left, replaced) =
        read_at_lem mmap xs maps small (cap + more) file offset n (IsWindow-le xs cap more file v)
          pos inside (omega arith) in
      (
        min n (file.size - offset),
        omega (arith, v.size),
        omega arith,
        omega (arith, v.size),
        ground (arith, read),
      );
  whole = λ s e. absurd cc;
}
