-- ===== src/Parser/Accepted/Sound.antt =====
-- A reply that `ReplyParser_execute` returns has been read from an encoding of a value.
use mathlib.Core.Path.{subst}
use libredis.Base.{
  ℕ, zero, suc, ◌+◌, ◌-◌, ◌≤◌, ◌<◌, ◌≡◌, inl, inr, refl, sym, ap, ◌∙◌, Bool, true, false, Option,
  some, [], ◌∷◌, ◌++◌, Bytes, arith, length, length-take, length-drop, length-append,
  take-append-drop, drop-drop, append_assoc, drop, take, min, ◌&&◌, ltb, ◌==◌, ==_iff, ltb→lt,
  ltb→ge, Bool-cases,
}
use libredis.Reply.{Reply, Reply_new, null_buffer, rt_ok, rt_error, rt_integer, rt_multibulk_nil}
use libredis.Parser.{
  ReplyParser, State, s0, s1, s2, s3, s4, s5, s6, s7, s8, s9, s10, s11, s12, s13, s14, s15, s16,
  s17, s18, s19, s20, Result, rpr_reply, ReplyParser_execute, round, return, marked, goto,
  goto_mark, step, step_chars,
}
use libredis.Parser.Wire.{crlf}
use libredis.Parser.Run.{
  Round-cases, round_progress, execute-continue, execute-return, execute-more,
}
use libredis.Parser.Pieces.{round-at, drop-suc}
use libredis.Parser.Accepted.{Text, Awaits, Leads, same_head}
use libredis.Parser.Accepted.Initial.{step_initial-Awaits}
use libredis.Parser.Accepted.Steps.{
  step_line-Awaits, step_expect-Awaits, step_reply-Awaits, step_nil_bulk-Awaits, step_bulk-Awaits,
}
use libredis.Parser.Accepted.Counts.{
  bulk_count-Awaits, multibulk_count-Awaits, bulk_digits-Awaits, multibulk_digits-Awaits,
  multibulk-Awaits,
}

take-length : (n : ℕ) (xs : Bytes) → n ≤ length xs → length (take n xs) ≡ n
take-length n xs h = omega (arith, length-take n xs)

drop-cons : (i : ℕ) (xs : Bytes) → i < length xs → (c : ℕ) × (t : Bytes) × (drop i xs ≡ c ∷ t)
drop-cons i [] h = absurd (omega (arith, h))
drop-cons zero (x ∷ xs) h = (x, xs, refl)
drop-cons (suc i) (x ∷ xs) h = drop-cons i xs (omega (arith, h))

both_true : (a b : Bool) → (a && b) ≡ true → (a ≡ true) × (b ≡ true)
both_true true b h = (refl, h)
both_true false b h = ground (arith, h)

module _ (bytes : Bytes) (len : ℕ) (fits : len ≤ length bytes) where
  -- The characters that are counted
  chars-Awaits :
      (rp : ReplyParser) (c : ℕ) (e t : Bytes)
      → rp.cs ≡ s11
      → rp.p < len
      → drop rp.p bytes ≡ c ∷ t
      → drop (rp.p + 1) bytes ≡ t
      → Leads bytes e (step_chars (min rp.bulk_count (len - rp.p)) rp c)
      → Awaits s11 rp (drop rp.mark bytes) e (c ∷ t)
  unfolding step_chars
  chars-Awaits rp c e t state inside at next h =
      elim (Bool-cases (min rp.bulk_count (len - rp.p) == 0 && c == b'\r')) [
        | inl over ↦
            let (rest, eq, later) : Awaits s12 (goto s12 rp) (drop rp.mark bytes) e
                (drop (rp.p + 1) bytes) =
              rw over at h in
            let (none_left, cr) =
              both_true (min rp.bulk_count (len - rp.p) == 0) (c == b'\r') over in
            let z = (==_iff (min rp.bulk_count (len - rp.p)) 0).0 none_left in
            (
              [],
              rest,
              omega (arith, z, inside),
              same_head c b'\r' t (b'\n' ∷ rest) cr (sym next ∙ eq),
              later,
            )
        | inr more ↦ elim (Bool-cases (ltb 0 (min rp.bulk_count (len - rp.p)))) [
          | inr none_left ↦ let h' : ⊥ = rw (more, none_left) at h in absurd h'
          | inl some_left ↦
              let n = min rp.bulk_count (len - rp.p) in
              let q : ReplyParser = record rp { p = rp.p + n; bulk_count = rp.bulk_count - n } in
              let h' : Awaits rp.cs q (drop rp.mark bytes) e (drop (rp.p + n) bytes) =
                rw (more, some_left) at h in
              let (s, rest, len_s, eq, later) : Awaits s11 q (drop rp.mark bytes) e
                  (drop (rp.p + n) bytes) =
                subst (λ (st : State). Awaits st q (drop rp.mark bytes) e (drop (rp.p + n) bytes))
                  state h' in
              let taken : Bytes = take n (drop rp.p bytes) in
              let taken_len : length taken ≡ n =
                take-length n (drop rp.p bytes)
                  (omega (arith, length-drop rp.p bytes, fits, inside)) in
              (
                taken ++ s,
                rest,
                omega (arith, length-append taken s, taken_len, len_s),
                sym at
                    ∙ sym (take-append-drop n (drop rp.p bytes))
                    ∙ ap (λ (u : Bytes). taken ++ u) (drop-drop rp.p n bytes ∙ eq)
                    ∙ sym (append_assoc taken s (crlf rest)),
                later,
              )
        ]
      ]

  step-Awaits :
      (s : State) (rp : ReplyParser) (c : ℕ) (e t : Bytes)
      → rp.cs ≡ s
      → rp.p < len
      → drop rp.p bytes ≡ c ∷ t
      → drop (rp.p + 1) bytes ≡ t
      → Leads bytes e (step s rp bytes len c)
      → Awaits s rp (drop rp.mark bytes) e (c ∷ t)
  unfolding step
  step-Awaits s0 rp c e t state inside at next h = step_initial-Awaits bytes rp c e t next h
  step-Awaits s1 rp c e t state inside at next h =
      step_line-Awaits bytes s2 rp c e t (λ q m u k. k)
        (λ q m u k. subst (λ (st : State). Awaits st q m e u) state k) next h
  step-Awaits s2 rp c e t state inside at next h =
      step_reply-Awaits bytes (marked rt_ok) rp c e t next h
  step-Awaits s3 rp c e t state inside at next h =
      step_line-Awaits bytes s4 rp c e t (λ q m u k. k)
        (λ q m u k. subst (λ (st : State). Awaits st q m e u) state k) next h
  step-Awaits s4 rp c e t state inside at next h =
      step_reply-Awaits bytes (marked rt_error) rp c e t next h
  step-Awaits s5 rp c e t state inside at next h = bulk_count-Awaits bytes rp c e t at next h
  step-Awaits s6 rp c e t state inside at next h =
      let (same, (rest, eq, later)) = step_expect-Awaits bytes b'1' (goto s7 rp) rp c e h in
      (rest, same_head c b'1' t (crlf rest) same (sym next ∙ eq), later)
  step-Awaits s7 rp c e t state inside at next h =
      let (same, (rest, eq, later)) = step_expect-Awaits bytes b'\r' (goto s8 rp) rp c e h in
      (rest, same_head c b'\r' t (b'\n' ∷ rest) same (sym next ∙ eq), later)
  step-Awaits s8 rp c e t state inside at next h = step_nil_bulk-Awaits bytes rp c e t next h
  step-Awaits s9 rp c e t state inside at next h = bulk_digits-Awaits bytes rp c e t state next h
  step-Awaits s10 rp c e t state inside at next h =
      let (same, text) = step_expect-Awaits bytes b'\n' (goto_mark s11 rp) rp c e h in
      (
        t,
        same_head c b'\n' t t same refl,
        subst (Text rp.bulk_count rp.multibulk_count e) next text,
      )
  step-Awaits s11 rp c e t state inside at next h = chars-Awaits rp c e t state inside at next h
  step-Awaits s12 rp c e t state inside at next h = step_bulk-Awaits bytes rp c e t next h
  step-Awaits s13 rp c e t state inside at next h = multibulk_count-Awaits bytes rp c e t at next h
  step-Awaits s14 rp c e t state inside at next h =
      let (same, eq) = step_expect-Awaits bytes b'1' (goto s15 rp) rp c e h in
      same_head c b'1' t (crlf e) same (sym next ∙ eq)
  step-Awaits s15 rp c e t state inside at next h =
      let (same, eq) = step_expect-Awaits bytes b'\r' (goto s16 rp) rp c e h in
      same_head c b'\r' t (b'\n' ∷ e) same (sym next ∙ eq)
  step-Awaits s16 rp c e t state inside at next h =
      step_reply-Awaits bytes (λ _. Reply_new rt_multibulk_nil null_buffer 0 0) rp c e t next h
  step-Awaits s17 rp c e t state inside at next h =
      multibulk_digits-Awaits bytes rp c e t state next h
  step-Awaits s18 rp c e t state inside at next h = multibulk-Awaits bytes rp c e t next h
  step-Awaits s19 rp c e t state inside at next h =
      step_line-Awaits bytes s20 rp c e t (λ q m u k. k)
        (λ q m u k. subst (λ (st : State). Awaits st q m e u) state k) next h
  step-Awaits s20 rp c e t state inside at next h =
      step_reply-Awaits bytes (marked rt_integer) rp c e t next h

  round-Awaits :
      (rp : ReplyParser) (e : Bytes)
      → rp.p < len
      → Leads bytes e (round rp bytes len)
      → Awaits rp.cs rp (drop rp.mark bytes) e (drop rp.p bytes)
  round-Awaits rp e inside h =
      let (c, t, at) = drop-cons rp.p bytes (omega (arith, inside, fits)) in
      subst (Awaits rp.cs rp (drop rp.mark bytes) e) (sym at) (
        step-Awaits rp.cs rp c e t refl inside at (drop-suc rp.p bytes at)
          (subst (Leads bytes e) (round-at bytes len rp at) h))

  returned-Leads :
      (x : Result) (r : Reply) (q' q : ReplyParser)
      → ◌≡◌ {A = Option (Result × ReplyParser)} (some (x, q')) (some (rpr_reply r, q))
      → Leads bytes (drop q.p bytes) (return x q')
  returned-Leads x r q' q same =
      let result : x ≡ rpr_reply r = cc (same) in
      let parser : q' ≡ q = cc (same) in
      subst (λ (y : Result). Leads bytes (drop q.p bytes) (return y q')) (sym result)
        (ap (λ (k : ReplyParser). drop k.p bytes) parser)

  execute-Awaits_within :
      (f : ℕ) (rp q : ReplyParser) (r : Reply)
      → len - rp.p ≤ f
      → ReplyParser_execute rp bytes len ≡ some (rpr_reply r, q)
      → Awaits rp.cs rp (drop rp.mark bytes) (drop q.p bytes) (drop rp.p bytes)
  execute-Awaits_within zero rp q r le run =
      let done : len ≤ rp.p = omega (arith, le) in cc (execute-more bytes len rp done, run)
  execute-Awaits_within (suc f) rp q r le run = elim (Bool-cases (ltb rp.p len)) [
    | inr no_more ↦
        let done : len ≤ rp.p = ltb→ge rp.p len no_more in cc (execute-more bytes len rp done, run)
    | inl more ↦
        let inside = ltb→lt _ _ more in
        round-Awaits rp (drop q.p bytes) inside (elim (Round-cases (round rp bytes len)) [
          | inl (q', x, e) ↦
              subst (Leads bytes (drop q.p bytes)) (sym e)
                (returned-Leads x r q' q (sym (execute-return bytes len rp inside e) ∙ run))
          | inr (q', e) ↦
              let n = round_progress bytes len rp e in
              subst (Leads bytes (drop q.p bytes)) (sym e) (
                execute-Awaits_within f q' q r (omega (arith, n, le, inside))
                  (sym (execute-continue bytes len rp inside e) ∙ run))
        ])
  ]

  -- Where a call returns a reply, the bytes from `p` to where it stops are what its state waits for.
  pub execute-Awaits :
      (rp q : ReplyParser) (r : Reply)
      → ReplyParser_execute rp bytes len ≡ some (rpr_reply r, q)
      → Awaits rp.cs rp (drop rp.mark bytes) (drop q.p bytes) (drop rp.p bytes)
  execute-Awaits rp q r run = execute-Awaits_within (len - rp.p) rp q r (omega arith) run
