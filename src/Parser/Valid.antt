-- ===== src/Parser/Valid.antt =====
-- The invariant of a `ReplyParser` between rounds: the mark is behind `p`, a pending multibulk
-- reply is there, and every reply points into the bytes already read.
use libredis.Base.{
  ℕ, zero, suc, ◌+◌, ◌-◌, min, ◌≤◌, ◌<◌, ◌≡◌, ◌⊎◌, inl, inr, refl, Option, none, some, Bytes, arith,
  ltb, drop, length, get_elem?-total, Option-cases, ltb→lt, ltb→ge, Bool-cases,
}
use libredis.Reply.{
  ReplyType, rt_bulk, rt_bulk_nil, Reply_new, Reply, reply, Replies, nil, cons, BufferRef,
  read_buffer, add_tail, Reply_add_child, reply_children,
}
use libredis.Parser.{
  ReplyParser, State, s0, s2, s4, s8, s11, s12, s18, s20, Round, continue, return, Result, rpr_more,
  rpr_error, undefined, rpr_reply, step, round, atoi, int_limit, ReplyParser_execute,
  ReplyParser_reset, finish_bulk, goto, step_chars,
}
use libredis.Parser.Run.{
  Round-cases, round_progress, execute-continue, execute-return, execute-more,
}

-- A reply with text in the read buffer points to bytes before `n`.
abbrev pub Points : ℕ → Reply → Type 0
Points n (reply t read_buffer offset len cs) = offset + len ≤ n
Points n (reply t _ offset len cs) = Unit

abbrev pub AllPoint : ℕ → Replies → Type 0
AllPoint n nil = Unit
AllPoint n (cons r rs) = Points n r × AllPoint n rs

-- So does the reply, and so do its children.
abbrev pub Within : ℕ → Reply → Type 0
Within n r = Points n r × AllPoint n (reply_children r)

abbrev pub PendingWithin : ℕ → Option Reply → Type 0
PendingWithin n none = Unit
PendingWithin n (some r) = Within n r

abbrev pub IsPending : Option Reply → Type 0
IsPending o = (m : Reply) × (o ≡ some m)

-- What single states add
abbrev pub Phase : State → ReplyParser → Type 0
Phase s2 rp = suc rp.mark ≤ rp.p
Phase s4 rp = suc rp.mark ≤ rp.p
Phase s20 rp = suc rp.mark ≤ rp.p
Phase s12 rp = (suc rp.mark ≤ rp.p) × (rp.bulk_count ≡ 0)
Phase s18 rp = IsPending rp.multibulk_reply
Phase _ rp = Unit

pub record IsValid (len : ℕ) (rp : ReplyParser) : Type 0 where
  pub in_len : rp.p ≤ len
  pub mark_le : rp.mark ≤ rp.p
  pub pending : (rp.multibulk_count ≡ 0) ⊎ IsPending rp.multibulk_reply
  pub within : PendingWithin rp.p rp.multibulk_reply
  pub phase : Phase rp.cs rp

Points-mono : (m n : ℕ) (r : Reply) → m ≤ n → Points m r → Points n r
Points-mono m n (reply t read_buffer o l cs) h p = omega arith
Points-mono m n (reply t _ o l cs) h p = tt

AllPoint-mono : (m n : ℕ) (rs : Replies) → m ≤ n → AllPoint m rs → AllPoint n rs
AllPoint-mono m n nil h p = tt
AllPoint-mono m n (cons r rs) h p = (Points-mono m n r h p.0, AllPoint-mono m n rs h p.1)

pub Within-mono : (m n : ℕ) (r : Reply) → m ≤ n → Within m r → Within n r
Within-mono m n r h p = (Points-mono m n r h p.0, AllPoint-mono m n (reply_children r) h p.1)

PendingWithin-mono : (m n : ℕ) (o : Option Reply) → m ≤ n → PendingWithin m o → PendingWithin n o
PendingWithin-mono m n none h p = tt
PendingWithin-mono m n (some r) h p = Within-mono m n r h p

AllPoint-add_tail :
    (n : ℕ) (rs : Replies) (r : Reply) → AllPoint n rs → Points n r → AllPoint n (add_tail rs r)
unfolding add_tail
AllPoint-add_tail n nil r a p = (p, tt)
AllPoint-add_tail n (cons x rs) r a p = (a.0, AllPoint-add_tail n rs r a.1 p)

Within-add_child : (n : ℕ) (m r : Reply) → Within n m → Points n r → Within n (Reply_add_child m r)
unfolding Reply_add_child
Within-add_child n (reply t read_buffer o l cs) r w p = (w.0, AllPoint-add_tail n cs r w.1 p)
Within-add_child n (reply t _ o l cs) r w p = (tt, AllPoint-add_tail n cs r w.1 p)

-- What a round leaves: a valid parser, with a reply inside the bytes read; or a number that is no
-- `int`, read at the mark.
abbrev pub Keeps : Bytes → ℕ → Round → Type 0
Keeps bytes len (continue q) = IsValid len q
Keeps bytes len (return rpr_error q) = IsValid len q
Keeps bytes len (return rpr_more q) = IsValid len q
Keeps bytes len (return (rpr_reply r) q) = IsValid len q × Within q.p r
Keeps bytes len (return undefined q) = int_limit ≤ atoi (drop q.mark bytes)

finish_bulk-Keeps :
    (bytes : Bytes) (len : ℕ) (t : ReplyType) (b : BufferRef) (o l : ℕ) (rp : ReplyParser)
    → IsValid len rp
    → rp.cs ≡ s0
    → Points rp.p (Reply_new t b o l)
    → Keeps bytes len (finish_bulk (Reply_new t b o l) rp)
unfolding finish_bulk
finish_bulk-Keeps bytes len t b o l rp v s p = elim (Option-cases rp.multibulk_reply) [
  | inl no_reply ↦ ground arith
  | inr (m, there) ↦
      let w = Within-add_child rp.p m (Reply_new t b o l) (rw there at v.within) p in
      ground (arith, w)
]

step_chars-Keeps :
    (n : ℕ) (bytes : Bytes) (len c : ℕ) (rp : ReplyParser)
    → rp.cs ≡ s11
    → IsValid len rp
    → n ≤ len - rp.p
    → n ≤ rp.bulk_count
    → (n ≡ 0 → rp.bulk_count ≡ 0)
    → rp.p < len
    → Keeps bytes len (step_chars n rp c)
unfolding step_chars
step_chars-Keeps n bytes len c rp e v a b z h = ground (
  arith,
  PendingWithin-mono rp.p (rp.p + n) rp.multibulk_reply,
  PendingWithin-mono rp.p (rp.p + 1) rp.multibulk_reply,
)

-- `goto` keeps all but the phase.
goto-IsValid : (len : ℕ) (rp : ReplyParser) → IsValid len rp → rp.p < len → IsValid len (goto s0 rp)
goto-IsValid len rp v h = ground (arith, PendingWithin-mono rp.p (rp.p + 1) rp.multibulk_reply)

step-Keeps :
    (s : State) (bytes : Bytes) (len c : ℕ) (rp : ReplyParser)
    → rp.cs ≡ s
    → IsValid len rp
    → rp.p < len
    → Keeps bytes len (step s rp bytes len c)
unfolding step
step-Keeps s8 bytes len c rp e v h = ground (
  arith,
  finish_bulk-Keeps bytes len rt_bulk_nil read_buffer 0 0 (goto s0 rp) (goto-IsValid len rp v h)
      refl,
)
step-Keeps s11 bytes len c rp e v h =
    step_chars-Keeps (min rp.bulk_count (len - rp.p)) bytes len c rp e v (omega arith) (omega arith)
      (λ z. omega arith) h
step-Keeps s12 bytes len c rp e v h = ground (
  arith,
  finish_bulk-Keeps bytes len rt_bulk read_buffer rp.mark (rp.p + 1 - rp.mark - 2) (goto s0 rp)
      (goto-IsValid len rp v h) refl,
)
step-Keeps _ bytes len c rp e v h =
    ground (arith, PendingWithin-mono rp.p (rp.p + 1) rp.multibulk_reply)

pub round-Keeps :
    (bytes : Bytes) (len : ℕ) (rp : ReplyParser)
    → len ≤ length bytes
    → IsValid len rp
    → rp.p < len
    → Keeps bytes len (round rp bytes len)
round-Keeps bytes len rp fits v h =
    let (c, e) = get_elem?-total bytes rp.p (omega arith) in
    rw (e, round, Keeps) (step-Keeps rp.cs bytes len c rp refl v h)

-- What a call of `ReplyParser_execute` returns: as `Keeps`
abbrev pub Outcome : Bytes → ℕ → Option (Result × ReplyParser) → Type 0
Outcome bytes len none = ⊥
Outcome bytes len (some (r, q)) = Keeps bytes len (return r q)

module _ (bytes : Bytes) (len : ℕ) (fits : len ≤ length bytes) where
  execute-Outcome_within :
      (f : ℕ) (rp : ReplyParser)
      → len - rp.p ≤ f
      → IsValid len rp
      → Outcome bytes len (ReplyParser_execute rp bytes len)
  execute-Outcome_within zero rp hf v = rw (execute-more bytes len rp (omega arith)) v
  execute-Outcome_within (suc f) rp hf v = elim (Bool-cases (ltb rp.p len)) [
    | inr no_more ↦ rw (execute-more bytes len rp (ltb→ge _ _ no_more)) v
    | inl more ↦
        let h = ltb→lt _ _ more in
        elim (Round-cases (round rp bytes len)) [
          | inl (q, r, e) ↦
              rw (execute-return bytes len rp h e) (rw e at (round-Keeps bytes len rp fits v h))
          | inr (q, e) ↦
              let n = round_progress bytes len rp e in
              rw (execute-continue bytes len rp h e) (
                execute-Outcome_within f q (omega arith)
                  (rw e at (round-Keeps bytes len rp fits v h)))
        ]
  ]

  -- On a valid parser, with the `len` bytes inside the buffer, `ReplyParser_execute` returns: with
  -- RPR_MORE or RPR_ERROR it leaves a valid parser, with RPR_REPLY also a reply which, with its
  -- children, points only to bytes before `p`, and behaviour is undefined only where the digits at
  -- the mark are no `int` (so no NULL multibulk reply is given a child, and no byte outside the
  -- buffer is read).
  pub execute-Outcome :
      (rp : ReplyParser) → IsValid len rp → Outcome bytes len (ReplyParser_execute rp bytes len)
  execute-Outcome rp v = execute-Outcome_within (len - rp.p) rp (omega arith) v

-- A parser is valid after `ReplyParser_reset`.
pub reset-IsValid : (len : ℕ) (rp : ReplyParser) → IsValid len (ReplyParser_reset rp)
reset-IsValid len rp = record {
  in_len = omega arith;
  mark_le = omega arith;
  pending = inl refl;
  within = tt;
  phase = tt;
}
