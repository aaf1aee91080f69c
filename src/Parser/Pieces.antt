-- ===== src/Parser/Pieces.antt =====
-- The machine on the pieces of a reply: a line, a number, the characters of a bulk reply.
use libredis.Base.{
  ℕ, suc, ◌+◌, ◌-◌, ◌*◌, min, ◌≤◌, ◌<◌, ◌≡◌, refl, sym, ap, ◌∙◌, true, Option, some, [], ◌∷◌, ◌++◌,
  Bytes, arith, drop, length, get_elem?-drop, drop-drop, drop-append,
}
use libredis.Reply.{Reply}
use libredis.Parser.{
  ReplyParser, State, s0, s5, s9, s10, s11, s12, continue, return, Result, step, step_initial,
  step_count, step_line, step_chars, s6, round, atoi, atoi_from, is_digit, ReplyParser_execute,
}
use libredis.Parser.Run.{execute-continue, execute-return}
use libredis.Parser.Rounds.{execute-took}
use libredis.Parser.Wire.{All, IsLine, IsCount, decimal_from, crlf}

abbrev pub at : ℕ → State → ℕ → ℕ → Option Reply → ℕ → ReplyParser
at p cs bc mc mr mark = record {
  p = p;
  cs = cs;
  bulk_count = bc;
  multibulk_count = mc;
  multibulk_reply = mr;
  mark = mark;
}

pub drop-suc :
    (p : ℕ) (xs : Bytes) {c : ℕ} {rest : Bytes} → drop p xs ≡ c ∷ rest → drop (p + 1) xs ≡ rest
drop-suc p xs h = sym (drop-drop p 1 xs) ∙ ap (drop 1) h

pub drop-add :
    (p : ℕ) (s : Bytes) (xs : Bytes) {rest : Bytes}
    → drop p xs ≡ s ++ rest
    → drop (p + length s) xs ≡ rest
drop-add p s xs {rest} h =
    sym (drop-drop p (length s) xs) ∙ ap (drop (length s)) h ∙ drop-append s rest

-- `atoi` on digits that end at a CR
pub atoi_from-decimal :
    (acc : ℕ) (ds rest : Bytes)
    → All (λ c. is_digit c ≡ true) ds
    → atoi_from acc (ds ++ b'\r' ∷ rest) ≡ decimal_from acc ds
unfolding atoi_from
atoi_from-decimal acc [] rest h = refl
atoi_from-decimal acc (d ∷ ds) rest h =
    ground (arith, atoi_from-decimal (acc * 10 + (d - b'0')) ds rest h.1)

module _ (bytes : Bytes) (len : ℕ) where
  pub round-at :
      (rp : ReplyParser) {c : ℕ} {rest : Bytes}
      → drop rp.p bytes ≡ c ∷ rest
      → round rp bytes len ≡ step rp.cs rp bytes len c
  round-at rp h = rw (get_elem?-drop bytes rp.p h, round)

  -- One round, at the next byte
  pub one :
      (rp : ReplyParser) {q : ReplyParser} {c : ℕ} {rest : Bytes}
      → drop rp.p bytes ≡ c ∷ rest
      → rp.p < len
      → step rp.cs rp bytes len c ≡ continue q
      → ReplyParser_execute rp bytes len ≡ ReplyParser_execute q bytes len
  one rp h lt e = execute-continue bytes len rp lt (round-at rp h ∙ e)

  pub last :
      (rp : ReplyParser) {q : ReplyParser} {r : Result} {c : ℕ} {rest : Bytes}
      → drop rp.p bytes ≡ c ∷ rest
      → rp.p < len
      → step rp.cs rp bytes len c ≡ return r q
      → ReplyParser_execute rp bytes len ≡ some (r, q)
  last rp h lt e = execute-return bytes len rp lt (round-at rp h ∙ e)

  module _ (bc mc : ℕ) (mr : Option Reply) (mark : ℕ) where
    -- States 1, 3 and 19, up to the CR
    pub line_run :
        (st t : State) (s rest : Bytes) (p : ℕ)
        → ((rp : ReplyParser) (c : ℕ) → step st rp bytes len c ≡ step_line t rp c)
        → IsLine s
        → drop p bytes ≡ s ++ b'\r' ∷ rest
        → p + length s + 1 ≤ len
        → ReplyParser_execute (at p st bc mc mr mark) bytes len
          ≡ ReplyParser_execute (at (p + length s + 1) t bc mc mr mark) bytes len
    unfolding step_line
    line_run st t [] rest p is no_cr h le =
        one (at p st bc mc mr mark) h (omega arith) (is (at p st bc mc mr mark) b'\r')
        ∙ ap (λ k. ReplyParser_execute (at k t bc mc mr mark) bytes len) (omega arith)
    line_run st t (c ∷ s) rest p is no_cr h le =
        one (at p st bc mc mr mark) {q = at (p + 1) st bc mc mr mark} h (omega arith)
          (is (at p st bc mc mr mark) c ∙ ground arith)
        ∙ line_run st t s rest (p + 1) is no_cr.1 (drop-suc p bytes h) (omega arith)
        ∙ ap (λ k. ReplyParser_execute (at k t bc mc mr mark) bytes len) (omega arith)

    -- States 9 and 17, up to the CR
    pub digits_run :
        (st : State) (ds rest : Bytes) (p : ℕ)
        → ((q c : ℕ)
            → is_digit c ≡ true
            → step st (at q st bc mc mr mark) bytes len c ≡ continue (at (q + 1) st bc mc mr mark))
        → All (λ c. is_digit c ≡ true) ds
        → drop p bytes ≡ ds ++ rest
        → p + length ds ≤ len
        → ReplyParser_execute (at p st bc mc mr mark) bytes len
          ≡ ReplyParser_execute (at (p + length ds) st bc mc mr mark) bytes len
    digits_run st [] rest p is all h le =
        ap (λ k. ReplyParser_execute (at k st bc mc mr mark) bytes len) (omega arith)
    digits_run st (d ∷ ds) rest p is all h le =
        one (at p st bc mc mr mark) h (omega arith) (is p d all.0)
        ∙ digits_run st ds rest (p + 1) is all.1 (drop-suc p bytes h) (omega arith)
        ∙ ap (λ k. ReplyParser_execute (at k st bc mc mr mark) bytes len) (omega arith)

  -- States 5 and 9, or 13 and 17: the first digit sets the mark.
  pub count_run :
      (st_nil st_first st_more : State) (bc mc : ℕ) (mr : Option Reply) (mark p d : ℕ)
      (ds rest : Bytes)
      → ((rp : ReplyParser) (c : ℕ) → step st_first rp bytes len c ≡ step_count st_nil st_more rp c)
      → ((q c : ℕ)
          → is_digit c ≡ true
          → step st_more (at q st_more bc mc mr p) bytes len c
            ≡ continue (at (q + 1) st_more bc mc mr p))
      → is_digit d ≡ true
      → All (λ c. is_digit c ≡ true) ds
      → drop p bytes ≡ d ∷ (ds ++ rest)
      → p + length ds + 1 ≤ len
      → ReplyParser_execute (at p st_first bc mc mr mark) bytes len
        ≡ ReplyParser_execute (at (p + length ds + 1) st_more bc mc mr p) bytes len
  unfolding step_count
  count_run st_nil st_first st_more bc mc mr mark p d ds rest first more digit digits h le =
      one (at p st_first bc mc mr mark) {q = at (p + 1) st_more bc mc mr p} h (omega arith)
        (first (at p st_first bc mc mr mark) d ∙ ground arith)
      ∙ digits_run bc mc mr p st_more ds rest (p + 1) more digits (drop-suc p bytes h) (omega arith)
      ∙ ap (λ k. ReplyParser_execute (at k st_more bc mc mr p) bytes len) (omega arith)

  pub atoi-count :
      (p d : ℕ) (ds rest : Bytes) {n : ℕ}
      → IsCount d ds n
      → drop p bytes ≡ d ∷ (ds ++ b'\r' ∷ rest)
      → atoi (drop p bytes) ≡ n
  atoi-count p d ds rest count h =
      ap atoi h ∙ atoi_from-decimal 0 (d ∷ ds) rest (count.first, count.others) ∙ count.value

  chars_end :
      (mc : ℕ) (mr : Option Reply) (mark p : ℕ) (rest : Bytes)
      → drop p bytes ≡ b'\r' ∷ rest
      → p + 1 ≤ len
      → ReplyParser_execute (at p s11 0 mc mr mark) bytes len
        ≡ ReplyParser_execute (at (p + 1) s12 0 mc mr mark) bytes len
  unfolding step step_chars
  chars_end mc mr mark p rest h le =
      one (at p s11 0 mc mr mark) {q = at (p + 1) s12 0 mc mr mark} h (omega arith)
        (let z : min 0 (len - p) ≡ 0 = omega arith in rw z)

  -- State 11: the characters, however many the buffer holds, and the CR behind them
  pub chars_run :
      (mc : ℕ) (mr : Option Reply) (mark p : ℕ) (s rest : Bytes)
      → len ≤ length bytes
      → drop p bytes ≡ s ++ b'\r' ∷ rest
      → p + length s + 1 ≤ len
      → ReplyParser_execute (at p s11 (length s) mc mr mark) bytes len
        ≡ ReplyParser_execute (at (p + length s + 1) s12 0 mc mr mark) bytes len
  chars_run mc mr mark p [] rest fits h le =
      chars_end mc mr mark p rest h (omega arith)
      ∙ ap (λ (k : ℕ). ReplyParser_execute (at k s12 0 mc mr mark) bytes len)
          (let e : p + 1 ≡ p + 0 + 1 = omega arith in e)
  chars_run mc mr mark p (c ∷ s) rest fits h le =
      let n = length (c ∷ s) in
      execute-took bytes len fits (at p s11 n mc mr mark) n refl (omega arith) (omega arith)
        (omega arith)
      ∙ ap (λ (k : ℕ). ReplyParser_execute (at (p + n) s11 k mc mr mark) bytes len)
          (let e : n - n ≡ 0 = omega arith in e)
      ∙ chars_end mc mr mark (p + n) rest (drop-add p (c ∷ s) bytes h) (omega arith)

  pub drop-at : {j k : ℕ} {xs : Bytes} → k ≡ j → drop j bytes ≡ xs → drop k bytes ≡ xs
  drop-at e x = rw e x

  -- Where the CRLF behind a text stands, and what follows it
  pub after_text :
      (p : ℕ) (s rest : Bytes)
      → drop p bytes ≡ s ++ crlf rest
      → (drop (p + length s) bytes ≡ crlf rest)
        × (drop (p + length s + 1) bytes ≡ b'\n' ∷ rest)
        × (drop (p + length s + 2) bytes ≡ rest)
  after_text p s rest h =
      let first = drop-add p s bytes h in
      let second = drop-suc (p + length s) bytes first in
      (first, second, drop-at (omega arith) (drop-suc (p + length s + 1) bytes second))

  -- Where the characters of a bulk reply stand
  pub bulk_text :
      (p d : ℕ) (ds s rest : Bytes)
      → drop p bytes ≡ b'$' ∷ d ∷ (ds ++ crlf (s ++ crlf rest))
      → drop (p + length ds + 4) bytes ≡ s ++ crlf rest
  bulk_text p d ds s rest h =
      drop-at (omega arith) (after_text (p + 1) (d ∷ ds) (s ++ crlf rest) (drop-suc p bytes h)).2

  -- `$`, the digits of the length, the characters and the CR behind them
  pub bulk_run :
      (bc mc : ℕ) (mr : Option Reply) (mark p d : ℕ) (ds s rest : Bytes)
      → len ≤ length bytes
      → IsCount d ds (length s)
      → drop p bytes ≡ b'$' ∷ d ∷ (ds ++ crlf (s ++ crlf rest))
      → p + length ds + length s + 6 ≤ len
      → ReplyParser_execute (at p s0 bc mc mr mark) bytes len
        ≡ ReplyParser_execute
            (at (p + length ds + length s + 5) s12 0 mc mr (p + length ds + 4))
            bytes
            len
  unfolding step step_initial
  bulk_run bc mc mr mark p d ds s rest fits count h le =
      one (at p s0 bc mc mr mark) {q = at (p + 1) s5 bc mc mr mark} h (omega arith) refl
      ∙ count_run s6 s5 s9 bc mc mr mark (p + 1) d ds (crlf (s ++ crlf rest)) (λ _ _. refl)
          (λ q c x. ground arith) count.first count.others h1 (omega arith)
      ∙ one (at (p + 1 + length ds + 1) s9 bc mc mr (p + 1))
          {q = at (p + 1 + length ds + 2) s10 (length s) mc mr (p + 1)}
          (drop-at (omega arith) behind.0) (omega arith)
          (ground
            (arith, atoi-count (p + 1) d ds (b'\n' ∷ (s ++ crlf rest)) count h1, count.is_int))
      ∙ one (at (p + 1 + length ds + 2) s10 (length s) mc mr (p + 1))
          {q = at (p + length ds + 4) s11 (length s) mc mr (p + length ds + 4)}
          (drop-at (omega arith) behind.1) (omega arith) (ground arith)
      ∙ chars_run mc mr (p + length ds + 4) (p + length ds + 4) s (b'\n' ∷ rest) fits
          (bulk_text p d ds s rest h) (omega arith)
      ∙ ap (λ (k : ℕ). ReplyParser_execute (at k s12 0 mc mr (p + length ds + 4)) bytes len)
          (let e : p + length ds + 4 + length s + 1 ≡ p + length ds + length s + 5 = omega arith in
            e)
    where
      h1 : drop (p + 1) bytes ≡ d ∷ (ds ++ crlf (s ++ crlf rest))
      h1 = drop-suc p bytes h

      behind :
          (drop (p + 1 + suc (length ds)) bytes ≡ crlf (s ++ crlf rest))
          × (drop (p + 1 + suc (length ds) + 1) bytes ≡ b'\n' ∷ (s ++ crlf rest))
          × (drop (p + 1 + suc (length ds) + 2) bytes ≡ s ++ crlf rest)
      behind = after_text (p + 1) (d ∷ ds) (s ++ crlf rest) h1
