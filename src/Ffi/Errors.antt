-- ===== src/Ffi/Errors.antt =====
-- The error buffer of src/ffi.rs: 256 bytes that hold a C string, empty when there is no error.
use mmap_chunker_core.Base.{
  ℕ, zero, suc, ◌-◌, ◌<◌, ◌≡◌, ◌≢◌, ◌∙◌, refl, ap, arith, min, List, [], ◌∷◌, ◌++◌, length, take,
  drop, length-take, length-drop, length-append, All, get_elem?, Option, none, some, Run, done,
  ◌>>=◌, unwrap, ◌==◌, if◌then◌else◌,
}

abbrev pub max_error_len : ℕ
max_error_len = 256

-- `let len = …`: what fits with the final 0.
abbrev pub stored_len : List ℕ → ℕ
stored_len src = min (length src) (max_error_len - 1)

unfoldable pub set_error : List ℕ → List ℕ → List ℕ
set_error src buf = take (stored_len src) src ++ (0 ∷ drop (suc (stored_len src)) buf)

unfoldable pub clear_error : List ℕ → List ℕ
clear_error [] = []
clear_error (b ∷ buf) = 0 ∷ buf

-- `mmap_engine_last_error`: a null pointer, or the buffer.
unfoldable pub last_error : List ℕ → Run (Option (List ℕ))
last_error buf = do first ← unwrap (get_elem? buf 0); done (if first == 0 then none else some buf)

-- What a C program reads behind a pointer: the bytes before the first 0.
abbrev pub c_string : List ℕ → List ℕ
c_string [] = []
c_string (b ∷ buf) = let rest = c_string buf in if b == 0 then [] else b ∷ rest

c_string-append :
    (n : ℕ) (src buf : List ℕ)
    → All (λ b. b ≢ 0) src
    → c_string (take n src ++ (0 ∷ buf)) ≡ take n src
c_string-append zero src buf h = refl
c_string-append (suc n) [] buf h = refl
c_string-append (suc n) (b ∷ src) buf (nonzero, h) = ground (arith, c_string-append n src buf h)

take-stored : (n : ℕ) (src : List ℕ) → take (min (length src) n) src ≡ take n src
take-stored zero src = let e : min (length src) 0 ≡ 0 = omega arith in ap (λ k. take k src) e
take-stored (suc n) [] =
    let e : min (length {A = ℕ} []) (suc n) ≡ 0 = omega arith in ap (λ k. take {A = ℕ} k []) e
take-stored (suc n) (b ∷ src) =
    let e : min (suc (length src)) (suc n) ≡ suc (min (length src) n) = omega arith in
    ap (λ k. take k (b ∷ src)) e ∙ ap (λ xs. b ∷ xs) (take-stored n src)

length-set_error :
    (src buf : List ℕ) → length buf ≡ max_error_len → length (set_error src buf) ≡ max_error_len
unfolding set_error
length-set_error src buf full = omega (
  arith,
  length-append (take (stored_len src) src) (0 ∷ drop (suc (stored_len src)) buf),
  length-take (stored_len src) src,
  length-drop (suc (stored_len src)) buf,
)

first-set_error : (b : ℕ) (src buf : List ℕ) → get_elem? (set_error (b ∷ src) buf) 0 ≡ some b
unfolding set_error
first-set_error b src buf =
    let e : stored_len (b ∷ src) ≡ suc (min (length src) 254) = omega arith in rw e refl

last_error-clear_error : (buf : List ℕ) → 0 < length buf → last_error (clear_error buf) ≡ done none
unfolding last_error clear_error
last_error-clear_error [] h = absurd (omega arith)
last_error-clear_error (b ∷ buf) h = refl

-- After `set_error` with a message of at least one byte and without a 0 byte, `last_error` answers the
-- buffer, still 256 bytes, in which a C program reads the first 255 bytes of the message. After
-- `clear_error` it answers a null pointer, whatever was in the buffer.
pub last_error_lem :
    (src buf : List ℕ)
    → length buf ≡ max_error_len
    → All (λ b. b ≢ 0) src
    → 0 < length src
    → (last_error (set_error src buf) ≡ done (some (set_error src buf)))
      × (c_string (set_error src buf) ≡ take 255 src)
      × (length (set_error src buf) ≡ max_error_len)
      × (last_error (clear_error (set_error src buf)) ≡ done none)
unfolding last_error set_error
last_error_lem [] buf full text nonempty = absurd (omega arith)
last_error_lem (b ∷ src) buf full (nonzero, text) nonempty = (
  ground (arith, first-set_error b src buf),
  c_string-append (stored_len (b ∷ src)) (b ∷ src) (drop (suc (stored_len (b ∷ src))) buf)
        (nonzero, text)
      ∙ take-stored 255 (b ∷ src),
  length-set_error (b ∷ src) buf full,
  last_error-clear_error (set_error (b ∷ src) buf)
      (omega (arith, length-set_error (b ∷ src) buf full)),
)
