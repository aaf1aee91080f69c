-- ===== src/Parser.antt =====
-- `ReplyParser` of libredis/parser.c: the resumable state machine that reads replies from a buffer.
-- Assertions are compiled out, as the Makefile's -DNDEBUG does.
pub mod Run
pub mod Valid
pub mod Rounds
pub mod Resume
pub mod Wire
pub mod Digits
pub mod Pieces
pub mod Items
pub mod RoundTrip
pub mod Accepted
pub mod Arrival
use libredis.Base.{
  ℕ, zero, suc, ◌+◌, ◌-◌, ◌*◌, ◌^◌, min, Bool, true, false, ◌&&◌, Option, none, some, List, [], ◌∷◌,
  Bytes, if◌then◌else◌, ltb, leb, ◌==◌, get_elem?, drop,
}
use libredis.Reply.{
  ReplyType, Reply, Reply_new, Reply_add_child, read_buffer, null_buffer, rt_ok, rt_error,
  rt_bulk_nil, rt_bulk, rt_multibulk_nil, rt_multibulk, rt_integer,
}

-- The values 0 to 20 of `cs`
pub data State : Type 0 where
  s0 s1 s2 s3 s4 s5 s6 s7 s8 s9 s10 s11 s12 s13 s14 s15 s16 s17 s18 s19 s20 : State

-- `struct _ReplyParser`
pub record ReplyParser : Type 0 where
  pub p : ℕ
  pub cs : State
  pub bulk_count : ℕ
  pub multibulk_count : ℕ
  pub multibulk_reply : Option Reply
  pub mark : ℕ

-- The parser after `ReplyParser_reset`, whatever it was.
abbrev pub ReplyParser_reset : ReplyParser → ReplyParser
ReplyParser_reset rp = record {
  p = 0;
  cs = s0;
  bulk_count = 0;
  multibulk_count = 0;
  multibulk_reply = none;
  mark = 0;
}

-- `ReplyParserResult` with the `reply` out parameter. `undefined` is undefined behaviour: a read
-- outside the buffer, a child for a NULL reply, or `atoi` of a number that is no `int`.
pub data Result : Type 0 where
  rpr_error rpr_more undefined : Result
  rpr_reply : Reply → Result

-- How one round of the loop ends: `continue`, or `return`.
pub data Round : Type 0 where
  continue : ReplyParser → Round
  return : Result → ReplyParser → Round

abbrev pub is_digit : ℕ → Bool
is_digit c = leb b'0' c && leb c b'9'

-- `atoi` on a text that begins with a digit, at an accumulator
unfoldable pub atoi_from : ℕ → Bytes → ℕ
atoi_from acc [] = acc
atoi_from acc (c ∷ cs) =
    let rest = atoi_from (acc * 10 + (c - b'0')) cs in if is_digit c then rest else acc

abbrev pub atoi : Bytes → ℕ
atoi = atoi_from 0

abbrev pub int_limit : ℕ
int_limit = 2 ^ 31

-- rp->p++, rp->cs = s
abbrev pub goto : State → ReplyParser → ReplyParser
goto s rp = record rp { p = rp.p + 1; cs = s }

-- rp->p++, rp->cs = s, MARK
abbrev pub goto_mark : State → ReplyParser → ReplyParser
goto_mark s rp = record rp { p = rp.p + 1; cs = s; mark = rp.p + 1 }

-- MARK, rp->p++, rp->cs = s
abbrev pub mark_goto : State → ReplyParser → ReplyParser
mark_goto s rp = record rp { p = rp.p + 1; cs = s; mark = rp.p }

abbrev fail : ReplyParser → Round
fail rp = return rpr_error rp

-- A complete bulk reply in case 8 or 12: the child of a multibulk reply, or a reply of its own.
pub finish_bulk : Reply → ReplyParser → Round
finish_bulk r rp =
    if ltb 0 rp.multibulk_count
    then elim rp.multibulk_reply [
      | none ↦ return undefined rp
      | some m ↦
          let whole = Reply_add_child m r in
          if rp.multibulk_count - 1 == 0
          then return (rpr_reply whole) (record rp { multibulk_count = 0; multibulk_reply = none })
          else continue
              (record rp { multibulk_count = rp.multibulk_count - 1; multibulk_reply = some whole })
    ]
    else return (rpr_reply r) rp

-- Case 0
pub step_initial : ReplyParser → ℕ → Round
step_initial rp c =
    if c == b'$'
    then continue (goto s5 rp)
    else if rp.multibulk_count == 0
    then if c == b'+'
      then continue (goto_mark s1 rp)
      else if c == b'-'
      then continue (goto_mark s3 rp)
      else if c == b'*'
      then continue (goto s13 rp)
      else if c == b':'
      then continue (goto_mark s19 rp)
      else fail rp
    else fail rp

-- Cases 1, 3 and 19: any byte up to CR
pub step_line : State → ReplyParser → ℕ → Round
step_line s rp c =
    if c == b'\r' then continue (goto s rp) else continue (record rp { p = rp.p + 1 })

-- Cases 6, 7, 10, 14 and 15: one expected byte
pub step_expect : ℕ → ReplyParser → ReplyParser → ℕ → Round
step_expect b rp' rp c = if c == b then continue rp' else fail rp

-- Cases 2, 4, 16 and 20: the LF that ends a reply
pub step_reply : (ReplyParser → Reply) → ReplyParser → ℕ → Round
step_reply r rp c = if c == b'\n' then return (rpr_reply (r (goto s0 rp))) (goto s0 rp) else fail rp

-- A reply whose text runs from the mark to the CRLF before `p`
abbrev pub marked : ReplyType → ReplyParser → Reply
marked type rp = Reply_new type read_buffer rp.mark (rp.p - rp.mark - 2)

-- Cases 5 and 13: a minus sign, or a digit
pub step_count : State → State → ReplyParser → ℕ → Round
step_count nil_state digits_state rp c =
    if c == b'-'
    then continue (goto nil_state rp)
    else if is_digit c
    then continue (mark_goto digits_state rp)
    else fail rp

-- Case 9, on the number that `atoi` reads at the mark
pub step_bulk_digits : ℕ → ReplyParser → ℕ → Round
step_bulk_digits n rp c =
    if c == b'\r'
    then if ltb n int_limit
      then continue (record (goto s10 rp) { bulk_count = n })
      else return undefined rp
    else if is_digit c
    then continue (record rp { p = rp.p + 1 })
    else fail rp

-- Case 17
pub step_multibulk_digits : ℕ → ReplyParser → ℕ → Round
step_multibulk_digits n rp c =
    if c == b'\r'
    then if ltb n int_limit
      then continue (record (goto s18 rp) {
        multibulk_count = n;
        multibulk_reply = some (Reply_new rt_multibulk null_buffer 0 n);
      })
      else return undefined rp
    else if is_digit c
    then continue (record rp { p = rp.p + 1 })
    else fail rp

-- Case 11; `n` is MIN(bulk_count, len - p).
pub step_chars : ℕ → ReplyParser → ℕ → Round
step_chars n rp c =
    if n == 0 && c == b'\r'
    then continue (goto s12 rp)
    else if ltb 0 n
    then continue (record rp { p = rp.p + n; bulk_count = rp.bulk_count - n })
    else fail rp

-- Case 8
pub step_nil_bulk : ReplyParser → ℕ → Round
step_nil_bulk rp c =
    if c == b'\n' then finish_bulk (Reply_new rt_bulk_nil read_buffer 0 0) (goto s0 rp) else fail rp

-- Case 12
pub step_bulk : ReplyParser → ℕ → Round
step_bulk rp c =
    if c == b'\n'
    then finish_bulk (Reply_new rt_bulk read_buffer rp.mark (rp.p + 1 - rp.mark - 2)) (goto s0 rp)
    else fail rp

-- Case 18; a multibulk reply with no entries is complete here.
pub step_multibulk : ReplyParser → ℕ → Round
step_multibulk rp c =
    if c == b'\n'
    then if rp.multibulk_count == 0
      then elim rp.multibulk_reply [
        | none ↦ return undefined (goto s0 rp)
        | some m ↦ return (rpr_reply m) (record (goto s0 rp) { multibulk_reply = none })
      ]
      else continue (goto s0 rp)
    else fail rp

-- The switch: one round at a byte `c` of the buffer, in state `cs`.
pub step : State → ReplyParser → Bytes → ℕ → ℕ → Round
unfolding step_initial step_line step_expect step_reply step_count step_bulk_digits
    step_multibulk_digits step_chars step_nil_bulk step_bulk step_multibulk finish_bulk
step s0 rp bytes len c = step_initial rp c
step s1 rp bytes len c = step_line s2 rp c
step s2 rp bytes len c = step_reply (marked rt_ok) rp c
step s3 rp bytes len c = step_line s4 rp c
step s4 rp bytes len c = step_reply (marked rt_error) rp c
step s5 rp bytes len c = step_count s6 s9 rp c
step s6 rp bytes len c = step_expect b'1' (goto s7 rp) rp c
step s7 rp bytes len c = step_expect b'\r' (goto s8 rp) rp c
step s8 rp bytes len c = step_nil_bulk rp c
step s9 rp bytes len c = step_bulk_digits (atoi (drop rp.mark bytes)) rp c
step s10 rp bytes len c = step_expect b'\n' (goto_mark s11 rp) rp c
step s11 rp bytes len c = step_chars (min rp.bulk_count (len - rp.p)) rp c
step s12 rp bytes len c = step_bulk rp c
step s13 rp bytes len c = step_count s14 s17 rp c
step s14 rp bytes len c = step_expect b'1' (goto s15 rp) rp c
step s15 rp bytes len c = step_expect b'\r' (goto s16 rp) rp c
step s16 rp bytes len c = step_reply (λ _. Reply_new rt_multibulk_nil null_buffer 0 0) rp c
step s17 rp bytes len c = step_multibulk_digits (atoi (drop rp.mark bytes)) rp c
step s18 rp bytes len c = step_multibulk rp c
step s19 rp bytes len c = step_line s20 rp c
step s20 rp bytes len c = step_reply (marked rt_integer) rp c

-- The byte at `p`, then the switch
abbrev pub round : ReplyParser → Bytes → ℕ → Round
round rp bytes len = elim (get_elem? bytes rp.p) [
  | none ↦ return undefined rp
  | some c ↦ step rp.cs rp bytes len c
]

abbrev pub after :
    Round → (ReplyParser → Option (Result × ReplyParser)) → Option (Result × ReplyParser)
after (continue rp) k = k rp
after (return r rp) k = some (r, rp)

-- `while (rp->p < len)`, in at most `fuel` rounds; `none` means that the fuel ran out.
pub loop : ℕ → ReplyParser → Bytes → ℕ → Option (Result × ReplyParser)
loop zero rp bytes len = if ltb rp.p len then none else some (rpr_more, rp)
loop (suc f) rp bytes len = elim (ltb rp.p len) [
  | true ↦ after (round rp bytes len) (λ q. loop f q bytes len)
  | false ↦ some (rpr_more, rp)
]

-- Each round takes a byte or returns, so a round for each byte left is enough.
unfoldable pub ReplyParser_execute : ReplyParser → Bytes → ℕ → Option (Result × ReplyParser)
unfolding loop step
ReplyParser_execute rp bytes len = loop (len - rp.p) rp bytes len
