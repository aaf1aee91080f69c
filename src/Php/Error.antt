-- ===== src/Php/Error.antt =====
-- The error text of the PHP extension: `g_module_error`, what fills it, and `last_error`.
use libredis.Base.{
  take, length-take, ℕ, zero, suc, ◌+◌, ◌≤◌, ◌<◌, ◌≡◌, ◌≢◌, refl, sym, ap, ◌∙◌, false, Option, none,
  some, [], ◌∷◌, ◌++◌, Bytes, arith, length, drop, take-append-drop, append_assoc, set, replicate,
  if◌then◌else◌, ◌==◌, ◌>>=◌,
}
use libredis.Buffer.{Buffer, Buffer_data}
use libredis.Batch.{Batch, Batch_error, Batch_abort}
use libredis.Batch.Abort.{abort_lem}
use libredis.Parser.Wire.{All}
use libredis.Module.{Module, Module_set_error, Module_last_error, max_text}

-- MAX_ERROR_SIZE, in the extension and in libredis/module.h
abbrev pub max_error_size : ℕ
max_error_size = 255

-- A text in C ends before its first NUL; `none` where the array ends without one.
unfoldable pub c_string : Bytes → Option Bytes
c_string [] = none
c_string (c ∷ cs) =
    let rest = c_string cs in if c == 0 then some [] else (do s ← rest; some (c ∷ s))

-- The array of `n` bytes that `strncpy` fills from the bytes at a pointer. These end at a NUL, as the texts
-- given to it do; where a text is given without its NUL, the end of the sequence stands for it.
pub strncpy : ℕ → Bytes → Bytes
strncpy zero s = []
strncpy (suc n) [] = replicate (suc n) 0
strncpy (suc n) (c ∷ cs) =
    let rest = strncpy n cs in if c == 0 then replicate (suc n) 0 else c ∷ rest

-- The text is that of `Module_last_error`.
pub set_last_error_from_global_error : Bytes → Bytes
set_last_error_from_global_error global = strncpy max_error_size global

unfoldable pub set_last_error_from_batch_error : Batch → Bytes → Bytes
set_last_error_from_batch_error b error = elim (Batch_error b) [
  | none ↦ set error 0 0
  | some text ↦ strncpy max_error_size text
]

-- `Redis::last_error`: the text, and the array after it; `none` reads behind the array.
pub last_error : Bytes → Option (Bytes × Bytes)
last_error error = do s ← c_string error; some (s, set error 0 0)

-- A text of C
abbrev pub IsText : Bytes → Type 0
IsText = All (λ c. c ≢ 0)

not_nul : (c : ℕ) → c ≢ 0 → (c == 0) ≡ false
not_nul c h = ground arith

c_string-strncpy : (n : ℕ) (s : Bytes) → IsText s → length s < n → c_string (strncpy n s) ≡ some s
unfolding c_string strncpy
c_string-strncpy zero s h lt = absurd (omega arith)
c_string-strncpy (suc n) [] h lt = refl
c_string-strncpy (suc n) (c ∷ cs) h lt =
    rw (not_nul c h.0, c_string-strncpy n cs h.1 (omega (arith, lt)), not_nul c h.0) refl

-- A text that fills the array leaves no room for the NUL.
c_string-strncpy_long :
    (n : ℕ) (s : Bytes) → IsText s → n ≤ length s → c_string (strncpy n s) ≡ none
unfolding c_string strncpy
c_string-strncpy_long zero s h le = refl
c_string-strncpy_long (suc n) [] h le = absurd (omega arith)
c_string-strncpy_long (suc n) (c ∷ cs) h le =
    rw (not_nul c h.0, c_string-strncpy_long n cs h.1 (omega (arith, le)), not_nul c h.0) refl

-- What stands behind the NUL of a text is not copied.
strncpy-c_string :
    (n : ℕ) (s rest : Bytes) → IsText s → length s < n → strncpy n (s ++ 0 ∷ rest) ≡ strncpy n s
unfolding strncpy
strncpy-c_string zero s rest h lt = absurd (omega arith)
strncpy-c_string (suc n) [] rest h lt = refl
strncpy-c_string (suc n) (c ∷ cs) rest h lt =
    rw (not_nul c h.0)
      (ap (λ (l : Bytes). c ∷ l) (strncpy-c_string n cs rest h.1 (omega (arith, lt))))

cleared : (e : Bytes) (s : Bytes) → c_string e ≡ some s → c_string (set e 0 0) ≡ some []
unfolding c_string
cleared [] s h = ground (arith, h)
cleared (c ∷ cs) s h = refl

-- `last_error` gives the text that an array holds and then nothing more.
pub last_error-once :
    (error s : Bytes)
    → c_string error ≡ some s
    → (error' : Bytes) × (last_error error ≡ some (s, error')) × (c_string error' ≡ some [])
unfolding last_error
last_error-once error s h = (set error 0 0, rw h refl, cleared error s h)

-- A text without NUL that the library leaves as its error is what the next call of `last_error` gives, in
-- full, and the call after that gives an empty text, if it has at most 254 bytes; a longer one leaves
-- the array without a NUL, and `last_error` reads behind it.
pub last_error-global :
    (text : Bytes)
    → IsText text
    → (length text < max_error_size
        → (error' : Bytes) × (last_error (set_last_error_from_global_error text)
            ≡ some (text, error'))
          × (c_string error' ≡ some []))
      × (max_error_size ≤ length text → last_error (set_last_error_from_global_error text) ≡ none)
unfolding set_last_error_from_global_error last_error
last_error-global text h = (
  (λ lt.
      last_error-once (strncpy max_error_size text) text
        (c_string-strncpy max_error_size text h lt)),
  (λ le. rw (c_string-strncpy_long max_error_size text h le) refl),
)

emptied : (error : Bytes) → 0 < length error → c_string (set error 0 0) ≡ some []
unfolding c_string
emptied [] h = absurd (omega arith)
emptied (c ∷ cs) h = refl

abbrev text_of : Option Buffer → Option Bytes
text_of o = elim o [ none ↦ none | some x ↦ some (Buffer_data x) ]

abbrev kept : Bytes → Option Buffer → Bytes
kept error o = elim (text_of o) [ none ↦ set error 0 0 | some t ↦ strncpy max_error_size t ]

-- After `Batch_abort` with a text without NUL of at most 254 bytes, whatever text was left before, the extension
-- keeps exactly this text as its error: the next call of `last_error` gives it, and the one after
-- that an empty text. Where a batch was not aborted, the text is emptied.
pub last_error-aborted :
    (b : Batch) (text error : Bytes)
    → IsText text
    → length text < max_error_size
    → (b' : Batch) × (Batch_abort b text ≡ some b')
      × ((error' : Bytes) × (last_error (set_last_error_from_batch_error b' error)
            ≡ some (text, error'))
          × (c_string error' ≡ some []))
      × (b.error ≡ none
          → 0 < length error
          → c_string (set_last_error_from_batch_error b error) ≡ some [])
unfolding set_last_error_from_batch_error c_string
last_error-aborted b text error h lt =
    let (b', run, r0, r1, r2, (e, has_error, text_there)) = abort_lem b text (omega (arith, lt)) in
    let rest = drop (length text + 1) (Buffer_data e) in
    let bytes : Buffer_data e ≡ text ++ 0 ∷ rest =
      sym (take-append-drop (length text + 1) (Buffer_data e))
      ∙ ap (λ (xs : Bytes). xs ++ rest) text_there
      ∙ append_assoc text (0 ∷ []) rest in
    let copied : set_last_error_from_batch_error b' error ≡ strncpy max_error_size text =
      ap (kept error) has_error
      ∙ ap (strncpy max_error_size) bytes
      ∙ strncpy-c_string max_error_size text rest h lt in
    (
      b',
      run,
      last_error-once (set_last_error_from_batch_error b' error) text
          (ap c_string copied ∙ c_string-strncpy max_error_size text h lt),
      λ no_error some_bytes. ap (λ o. c_string (kept error o)) no_error ∙ emptied error some_bytes,
    )

take-IsText : (n : ℕ) (s : Bytes) → IsText s → IsText (take n s)
take-IsText zero s h = tt
take-IsText (suc n) [] h = tt
take-IsText (suc n) (c ∷ cs) h = (h.0, take-IsText n cs h.1)

-- Whatever text without NUL the library sets as its error, of any length, the extension keeps a text that ends within its
-- array: the next call of `last_error` gives the first 254 bytes of it, and the one after that an empty text.
pub last_error-set_error :
    (m : Module) (text : Bytes)
    → IsText text
    → (error' : Bytes) × (last_error
          (set_last_error_from_global_error (Module_last_error (Module_set_error m text)))
        ≡ some (take max_text text, error'))
      × (c_string error' ≡ some [])
unfolding Module_set_error
last_error-set_error m text h =
    (last_error-global (take max_text text) (take-IsText max_text text h)).0
      (omega (arith, length-take max_text text))
