-- ===== src/Parser/Accepted/Verdict.antt =====
-- What each result of `ReplyParser_execute` says of the bytes that have arrived.
use mathlib.Core.Path.{subst}
use libredis.Base.{
  ℕ, ◌+◌, ◌≤◌, ◌<◌, ◌≡◌, refl, sym, ap, ◌∙◌, Option, none, some, Bytes, ◌++◌, arith, length,
  length-drop, length-append, length-take, drop, take, get_elem?-of_take, get_elem?-of_append,
  Bool-cases, ltb, ltb→lt, ltb→ge, inl, inr,
}
use libredis.Reply.{Reply}
use libredis.Parser.{
  ReplyParser, State, s0, Result, rpr_error, rpr_more, rpr_reply, undefined, atoi, int_limit,
  ReplyParser_execute,
}
use libredis.Parser.Wire.{Value, Encodes, Describes}
use libredis.Parser.Valid.{IsValid, Outcome, execute-Outcome}
use libredis.Parser.RoundTrip.{value-HasRead}
use libredis.Parser.Resume.{resumed, execute-resumed}
use libredis.Parser.Accepted.{Awaits}
use libredis.Parser.Accepted.Sound.{execute-Awaits}

-- By the result of a call between two replies, with the first `len` of `bytes` at hand
abbrev pub Verdict : Bytes → ℕ → ReplyParser → Option (Result × ReplyParser) → Type 0
Verdict bytes len rp none = ⊥
Verdict bytes len rp (some (rpr_reply r, q)) =
    (v : Value) × Encodes v (drop q.p bytes) (drop rp.p bytes) × Describes bytes v r × (q.p ≤ len)
Verdict bytes len rp (some (rpr_error, q)) =
    (v : Value) (more rest : Bytes) → ¬ Encodes v rest (drop rp.p (take len bytes ++ more))
Verdict bytes len rp (some (rpr_more, q)) =
    (v : Value) (rest : Bytes)
    → Encodes v rest (drop rp.p bytes)
    → len + length rest < rp.p + length (drop rp.p bytes)
Verdict bytes len rp (some (undefined, q)) = int_limit ≤ atoi (drop q.mark bytes)

module _ (bytes : Bytes) (len : ℕ) (fits : len ≤ length bytes) (rp : ReplyParser)
    (valid : IsValid len rp) (initial : rp.cs ≡ s0) (no_items : rp.multibulk_count ≡ 0) where
  reply-Verdict :
      (r : Reply) (q : ReplyParser)
      → ReplyParser_execute rp bytes len ≡ some (rpr_reply r, q)
      → q.p ≤ len
      → Verdict bytes len rp (some (rpr_reply r, q))
  reply-Verdict r q run inside =
      let t = drop rp.p bytes in
      let e = drop q.p bytes in
      let (v, enc) =
        (subst (λ (st : State). Awaits st rp (drop rp.mark bytes) e t) initial
            (execute-Awaits bytes len fits rp q r run)).0
          no_items in
      let h = value-HasRead bytes len fits v e t rp initial no_items enc refl (
        omega (arith, length-drop rp.p bytes, length-drop q.p bytes, inside, fits, valid.in_len)) in
      let same : h.found ≡ r = cc (h.returns, run) in
      (v, enc, subst (Describes bytes v) same h.describes, inside)

  more-Verdict :
      (q : ReplyParser)
      → ReplyParser_execute rp bytes len ≡ some (rpr_more, q)
      → Verdict bytes len rp (some (rpr_more, q))
  more-Verdict q run v rest enc =
      elim (Bool-cases (ltb (len + length rest) (rp.p + length (drop rp.p bytes)))) [
        | inl short ↦ ltb→lt _ _ short
        | inr whole ↦
            let h =
              value-HasRead bytes len fits v rest (drop rp.p bytes) rp initial no_items enc refl
                (ltb→ge _ _ whole) in
            let both : ◌≡◌ {A = Option (Result × ReplyParser)} (some (rpr_reply h.found, h.next))
                (some (rpr_more, q)) =
              sym h.returns ∙ run in
            cc (both)
      ]

  error-Verdict :
      (q : ReplyParser)
      → ReplyParser_execute rp bytes len ≡ some (rpr_error, q)
      → Verdict bytes len rp (some (rpr_error, q))
  error-Verdict q run v more rest enc =
      let ys : Bytes = take len bytes ++ more in
      let longer : len ≤ length ys =
        omega (arith, length-append (take len bytes) more, length-take len bytes, fits) in
      let h =
        value-HasRead ys (length ys) (omega arith) v rest (drop rp.p ys) rp initial no_items enc
          refl (omega (arith, length-drop rp.p ys, longer, valid.in_len)) in
      let same : ReplyParser_execute rp ys (length ys)
          ≡ resumed ys (length ys) (ReplyParser_execute rp bytes len) =
        execute-resumed bytes ys len (length ys) longer fits (omega arith)
          (λ i lt. sym (
            get_elem?-of_append i (take len bytes) more
              (omega (arith, lt, length-take len bytes, fits))
            ∙ get_elem?-of_take len i bytes lt))
          rp valid in
      let errs : ReplyParser_execute rp ys (length ys) ≡ some (rpr_error, q) =
        same ∙ ap (resumed ys (length ys)) run in
      cc (errs, h.returns)

  result-Verdict :
      (o : Option (Result × ReplyParser))
      → ReplyParser_execute rp bytes len ≡ o
      → Outcome bytes len o
      → Verdict bytes len rp o
  result-Verdict none run k = k
  result-Verdict (some (rpr_reply r, q)) run k = reply-Verdict r q run k.0.in_len
  result-Verdict (some (rpr_error, q)) run k = error-Verdict q run
  result-Verdict (some (rpr_more, q)) run k = more-Verdict q run
  result-Verdict (some (undefined, q)) run k = k

  -- A valid parser between two replies, run over the first `len` of the bytes: it returns. Where
  -- it returns a reply, the bytes from `p` to where it stopped, within the first `len`, are the
  -- encoding of a value and the reply describes that value. Where it returns RPR_ERROR, the
  -- first `len` bytes, whatever bytes follow them, have no encoding of a value at `p`. Where it
  -- returns RPR_MORE, no encoding of a value at `p` ends within the first `len` bytes. Its
  -- behaviour is undefined only where the digits at the mark are no `int`.
  pub execute-Verdict : Verdict bytes len rp (ReplyParser_execute rp bytes len)
  execute-Verdict =
      result-Verdict (ReplyParser_execute rp bytes len) refl
        (execute-Outcome bytes len fits rp valid)
