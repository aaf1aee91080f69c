-- ===== src/Batch/Walk.antt =====
-- The walk of `Batch_next_reply` over the first level of the queue.
use libredis.Base.{
  ℕ, zero, suc, ◌<◌, ◌≡◌, refl, ap, true, false, Option, none, some, [], ◌∷◌, arith, lt→ltb, ltb-ge,
  ◌==◌,
}
use libredis.Reply.{
  Reply, reply, Replies, nil, cons, count, ReplyType, BufferRef, null_buffer, read_buffer,
  error_buffer, rt_error, rt_none, rt_ok, rt_bulk_nil, rt_bulk, rt_multibulk_nil, rt_multibulk,
  rt_integer,
}
use libredis.Batch.{Batch, Node, node, head_node}
use libredis.Batch.Next.{
  reply_at, Next, no_reply, found, deliver, deliver_type, ascend, Reply_data, Batch_next_reply,
}

-- The cursor stands at the `i`-th entry of the queue, and 0 is its head.
abbrev pub at_entry : Batch → ℕ → Option Node → Option Node → Batch
at_entry b i x y = record b {
  current_reply_sp = 0;
  current_reply = some (node [] i) ∷ some head_node ∷ x ∷ y ∷ [];
}

-- What a reply that holds text, or none, is delivered as
pub shown : Reply → Option Next
shown (reply rt_multibulk b o n cs) = none
shown (reply rt_none b o n cs) = some (found 1 rt_none none n)
shown (reply rt_bulk_nil b o n cs) = some (found 1 rt_bulk_nil none n)
shown (reply rt_multibulk_nil b o n cs) = some (found 1 rt_multibulk_nil none n)
shown (reply t null_buffer o n cs) = none
shown (reply t b o n cs) = some (found 1 t (some (b, o)) n)

reply_at-count : (rs : Replies) (i : ℕ) (r : Reply) → reply_at rs i ≡ some r → i < count rs
reply_at-count nil i r e = ground arith
reply_at-count (cons x rs) zero r e = omega arith
reply_at-count (cons x rs) (suc i) r e = let h = reply_at-count rs i r e in omega (arith, h)

abbrev paired : Batch → Option Next → Option (Next × Batch)
paired b none = none
paired b (some n) = some (n, b)

deliver_type-shown :
    (b : Batch) (i : ℕ) (x y : Option Node) (current : Node) (n : Next) (len o : ℕ) (cs : Replies)
    (t : ReplyType) (buf : BufferRef)
    → shown (reply t buf o len cs) ≡ some n
    → deliver_type t current (reply t buf o len cs) (at_entry b i x y) ≡ some (n, at_entry b i x y)
unfolding shown deliver_type Reply_data
deliver_type-shown b i x y c n l o cs rt_none buf s = ap (paired (at_entry b i x y)) s
deliver_type-shown b i x y c n l o cs rt_bulk_nil buf s = ap (paired (at_entry b i x y)) s
deliver_type-shown b i x y c n l o cs rt_multibulk_nil buf s = ap (paired (at_entry b i x y)) s
deliver_type-shown b i x y c n l o cs rt_ok null_buffer s = ap (paired (at_entry b i x y)) s
deliver_type-shown b i x y c n l o cs rt_ok read_buffer s = ap (paired (at_entry b i x y)) s
deliver_type-shown b i x y c n l o cs rt_ok error_buffer s = ap (paired (at_entry b i x y)) s
deliver_type-shown b i x y c n l o cs rt_error null_buffer s = ap (paired (at_entry b i x y)) s
deliver_type-shown b i x y c n l o cs rt_error read_buffer s = ap (paired (at_entry b i x y)) s
deliver_type-shown b i x y c n l o cs rt_error error_buffer s = ap (paired (at_entry b i x y)) s
deliver_type-shown b i x y c n l o cs rt_bulk null_buffer s = ap (paired (at_entry b i x y)) s
deliver_type-shown b i x y c n l o cs rt_bulk read_buffer s = ap (paired (at_entry b i x y)) s
deliver_type-shown b i x y c n l o cs rt_bulk error_buffer s = ap (paired (at_entry b i x y)) s
deliver_type-shown b i x y c n l o cs rt_integer null_buffer s = ap (paired (at_entry b i x y)) s
deliver_type-shown b i x y c n l o cs rt_integer read_buffer s = ap (paired (at_entry b i x y)) s
deliver_type-shown b i x y c n l o cs rt_integer error_buffer s = ap (paired (at_entry b i x y)) s
deliver_type-shown b i x y c n l o cs rt_multibulk buf s = ground arith

deliver-shown :
    (b : Batch) (i : ℕ) (x y : Option Node) (r : Reply) (n : Next)
    → reply_at b.reply_queue i ≡ some r
    → shown r ≡ some n
    → deliver (node [] (suc i)) (at_entry b (suc i) x y) ≡ some (n, at_entry b (suc i) x y)
unfolding deliver
deliver-shown b i x y (reply t buf o len cs) n e s =
    rw e (deliver_type-shown b (suc i) x y (node [] (suc i)) n len o cs t buf s)

not_first : (i : ℕ) → (suc i == 0) ≡ false
not_first i = ground arith

first_level_end :
    (b : Batch) (x y : Option Node) → ascend (at_entry b 0 x y) ≡ some (no_reply, at_entry b 0 x y)
unfolding ascend
first_level_end b x y = refl

-- From the `i`-th place of a queue, a call delivers the reply that comes next, where it is not a
-- multibulk reply, and moves on to it; behind the last one it says that there is no reply and stands
-- at the head again.
pub next_reply-first_level :
    (b : Batch) (i : ℕ) (x y : Option Node)
    → ((r : Reply) (n : Next)
        → reply_at b.reply_queue i ≡ some r
        → shown r ≡ some n
        → Batch_next_reply true (at_entry b i x y) ≡ some (n, at_entry b (suc i) x y))
      × (i ≡ count b.reply_queue
          → Batch_next_reply true (at_entry b i x y) ≡ some (no_reply, at_entry b 0 x y))
unfolding Batch_next_reply
next_reply-first_level b i x y = (
  (λ r n e s.
      let lt = lt→ltb _ _ (reply_at-count b.reply_queue i r e) in
      let d = deliver-shown b i x y r n e s in rw (lt, not_first i) d),
  (λ e. rw (ltb-ge i (count b.reply_queue) (omega arith)) (first_level_end b x y)),
)
