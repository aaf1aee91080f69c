-- ===== src/Parser/Resume.antt =====
-- `ReplyParser_execute` is called again when more bytes have arrived. How the bytes are cut into
-- pieces does not matter.
use libredis.Base.{
  ℕ, zero, suc, ◌+◌, ◌-◌, min, ◌≤◌, ◌<◌, ◌≡◌, ◌≢◌, inl, inr, refl, sym, ap, ◌∙◌, Option, none, some,
  Bytes, arith, ltb, drop, get_elem?, length, get_elem?-total, get_elem?-of_drop, Bool-cases,
  ltb→lt, ltb→ge,
}
use libredis.Parser.{
  ReplyParser, s11, continue, return, Result, rpr_more, round, atoi, ReplyParser_execute,
}
use libredis.Parser.Run.{
  Round-cases, round_progress, execute-continue, execute-return, execute-more,
}
use libredis.Parser.Valid.{IsValid, round-Keeps}
use libredis.Parser.Rounds.{
  atoi_from-agree, step-agree, State-is_s11, continue-injective, continue≢return, round-ne-more,
  chars-round, execute-took,
}

-- What a call on fewer bytes comes to, with the first `n` of `ys` at hand: RPR_MORE is followed by a
-- second call, and anything else stands.
abbrev pub resumed : Bytes → ℕ → Option (Result × ReplyParser) → Option (Result × ReplyParser)
resumed ys n none = none
resumed ys n (some (rpr_more, q)) = ReplyParser_execute q ys n
resumed ys n (some (r, q)) = some (r, q)

module _ (xs ys : Bytes) (m n : ℕ) (longer : m ≤ n) (xs_fit : m ≤ length xs)
    (ys_fit : n ≤ length ys) (same : (i : ℕ) → i < m → get_elem? xs i ≡ get_elem? ys i) where
  atoi-agree :
      (rp : ReplyParser)
      → IsValid m rp
      → rp.p < m
      → get_elem? xs rp.p ≡ some b'\r'
      → atoi (drop rp.mark xs) ≡ atoi (drop rp.mark ys)
  atoi-agree rp v h cr =
      atoi_from-agree (rp.p - rp.mark) 0 (drop rp.mark xs) (drop rp.mark ys)
        (λ i le.
          get_elem?-of_drop rp.mark i xs
          ∙ same (rp.mark + i) (omega (arith, v.mark_le))
          ∙ sym (get_elem?-of_drop rp.mark i ys))
        (get_elem?-of_drop rp.mark (rp.p - rp.mark) xs
          ∙ ap (get_elem? xs) (omega (arith, v.mark_le))
          ∙ cr)

  round-agree :
      (rp : ReplyParser)
      → IsValid m rp
      → rp.p < m
      → (rp.cs ≡ s11 → rp.bulk_count ≡ 0)
      → round rp xs m ≡ round rp ys n
  round-agree rp v h ne =
      let (c, there) = get_elem?-total xs rp.p (omega arith) in
      ground (
        arith,
        there,
        same rp.p h,
        step-agree rp.cs rp xs ys m n c (λ e. omega (arith, ne e))
            (λ cr. atoi-agree rp v h (there ∙ ap some cr)),
      )

  -- In state 11 the longer call may take more characters at once.
  chars-agree :
      (rp : ReplyParser) {q : ReplyParser}
      → rp.cs ≡ s11
      → rp.p < m
      → 0 < rp.bulk_count
      → round rp xs m ≡ continue q
      → ReplyParser_execute rp ys n ≡ ReplyParser_execute q ys n
  chars-agree rp e h b r =
      let k = min rp.bulk_count (m - rp.p) in
      execute-took ys n ys_fit rp k e (omega arith) (omega arith) (omega arith)
      ∙ ap (λ q. ReplyParser_execute q ys n)
          (continue-injective (sym (chars-round xs m xs_fit rp k e h b refl) ∙ r))

  -- A round that goes on, on the shorter piece, does not change the result on the longer one.
  continue-agree :
      (rp : ReplyParser) {q : ReplyParser}
      → IsValid m rp
      → rp.p < m
      → round rp xs m ≡ continue q
      → ReplyParser_execute rp ys n ≡ ReplyParser_execute q ys n
  continue-agree rp {q} v h r = elim (State-is_s11 rp.cs) [
    | inl e ↦ elim (Bool-cases (ltb 0 rp.bulk_count)) [
      | inl some_left ↦ chars-agree rp e h (ltb→lt _ _ some_left) r
      | inr none_left ↦
          let z = ltb→ge _ _ none_left in
          execute-continue ys n rp (omega arith) (sym (round-agree rp v h (λ _. omega arith)) ∙ r)
    ]
    | inr ne ↦
        execute-continue ys n rp (omega arith) (sym (round-agree rp v h (λ e. absurd (ne e))) ∙ r)
  ]

  return-agree :
      (rp : ReplyParser) {q : ReplyParser} {r : Result}
      → IsValid m rp
      → rp.p < m
      → round rp xs m ≡ return r q
      → round rp ys n ≡ return r q
  return-agree rp {q} {r = x} v h r = sym (round-agree rp v h no_chars) ∙ r
    where
      no_chars : rp.cs ≡ s11 → rp.bulk_count ≡ 0
      no_chars e = elim (Bool-cases (ltb 0 rp.bulk_count)) [
        | inr none_left ↦ let z = ltb→ge _ _ none_left in omega arith
        | inl some_left ↦ absurd (
            continue≢return (
              sym (
                chars-round xs m xs_fit rp (min rp.bulk_count (m - rp.p)) e h (ltb→lt _ _ some_left)
                  refl)
              ∙ r))
      ]

  resumed-return :
      (r : Result) (q : ReplyParser) → r ≢ rpr_more → some (r, q) ≡ resumed ys n (some (r, q))
  resumed-return rpr_more q h = absurd (h refl)
  resumed-return _ q h = refl

  execute-resumed_within :
      (f : ℕ) (rp : ReplyParser)
      → m - rp.p ≤ f
      → IsValid m rp
      → ReplyParser_execute rp ys n ≡ resumed ys n (ReplyParser_execute rp xs m)
  execute-resumed_within zero rp hf v = rw (execute-more xs m rp (omega arith))
  execute-resumed_within (suc f) rp hf v = elim (Bool-cases (ltb rp.p m)) [
    | inr no_more ↦ rw (execute-more xs m rp (ltb→ge _ _ no_more))
    | inl more ↦
        let h = ltb→lt _ _ more in
        elim (Round-cases (round rp xs m)) [
          | inl (q, r, e) ↦
              rw
                (
                  execute-return xs m rp h e,
                  execute-return ys n rp (omega arith) (return-agree rp v h e),
                )
                (resumed-return r q (round-ne-more rp xs m e))
          | inr (q, e) ↦
              let forward = round_progress xs m rp e in
              continue-agree rp v h e
              ∙ execute-resumed_within f q (omega arith) (rw e at (round-Keeps xs m rp xs_fit v h))
              ∙ ap (resumed ys n) (sym (execute-continue xs m rp h e))
        ]
  ]

  -- A call on the first `m` bytes and a call on `n` bytes that begin with them: if the first returns
  -- RPR_MORE, the second gives what a call goes on to give from the parser that the first left, and
  -- if the first returns anything else, the second returns the same and leaves the same parser.
  pub execute-resumed :
      (rp : ReplyParser)
      → IsValid m rp
      → ReplyParser_execute rp ys n ≡ resumed ys n (ReplyParser_execute rp xs m)
  execute-resumed rp v = execute-resumed_within (m - rp.p) rp (omega arith) v
