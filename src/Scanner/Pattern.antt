-- ===== src/Scanner/Pattern.antt =====
-- `find_pattern_in_slice` of src/scanner.rs: candidates by the first byte, each verified.
pub mod Laws
use mmap_chunker_core.Base.{
  ℕ, zero, suc, ◌+◌, ◌-◌, List, length, Option, none, some, Run, done, out_of_fuel, ◌>>=◌, ◌==◌,
  ltb, leb, ◌||◌, if◌then◌else◌, unwrap, get_elem?,
}
use mmap_chunker_core.Slice.{Slice, len, slice_from}
use mmap_chunker_core.Search.{starts_with}
use mmap_chunker_core.Scanner.Swar.{find_byte_swar}

module _ (haystack : Slice) (pattern : List ℕ) (first_byte max_search : ℕ) where
  -- The `while` loop, on fuel. `?` returns from the function when the byte is not found.
  unfoldable pub candidate_loop : ℕ → ℕ → Run (Option ℕ)
  candidate_loop zero search_start = out_of_fuel
  candidate_loop (suc fuel) search_start =
      let check = λ (rel_pos : ℕ).
        (let pos = search_start + rel_pos in
          let verify = do
            candidate ← slice_from haystack pos
            let again = candidate_loop fuel (pos + 1)
            if starts_with pattern candidate.bytes then done (some pos) else again
          in if ltb max_search pos then done none else verify) in
      let body = do
        remainder ← slice_from haystack search_start
        found ← find_byte_swar remainder first_byte
        elim found [ none ↦ done none | some rel_pos ↦ check rel_pos ]
      in if leb search_start max_search then body else done none

unfoldable pub find_pattern_in_slice : Slice → List ℕ → Run (Option ℕ)
unfolding candidate_loop
find_pattern_in_slice haystack pattern =
    let plen = length pattern in
    let single = do byte ← unwrap (get_elem? pattern 0); find_byte_swar haystack byte
    in let general = do
      first_byte ← unwrap (get_elem? pattern 0)
      let max_search = len haystack - plen
      candidate_loop haystack pattern first_byte max_search (suc (len haystack)) 0
      in if plen == 0 || ltb (len haystack) plen
        then done none
        else if plen == 1
        then single
        else general
