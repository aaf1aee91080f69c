-- ===== src/Batch/Levels.antt =====
-- The walk of `Batch_next_reply` over both levels of the queue: the replies, and the children of multibulk
-- replies behind each of these.
pub mod Calls
pub mod ReadAll
use mathlib.Core.Path.{subst}
use libredis.Base.{
  ℕ, zero, suc, ◌+◌, ◌-◌, ◌/◌, ◌≤◌, ◌<◌, ◌≡◌, refl, sym, ap, ◌∙◌, ◌⊎◌, inl, inr, true, false,
  Option, none, some, List, [], ◌∷◌, ◌++◌, arith, length, ltb, lt→ltb, ltb-ge, if◌then◌else◌, ◌==◌,
}
use libredis.Reply.{
  Reply, reply, Replies, nil, cons, count, Reply_type, reply_children, BufferRef, null_buffer,
  read_buffer, error_buffer, rt_error, rt_none, rt_ok, rt_bulk_nil, rt_bulk, rt_multibulk_nil,
  rt_multibulk, rt_integer,
}
use libredis.Batch.{Batch, Node, node, head_node}
use libredis.Batch.Next.{
  reply_at, Next, invalid_argument, no_reply, found, deliver, deliver_type, descend, ascend,
  Reply_data, Batch_next_reply,
}

-- What a reply is delivered as, at a level
abbrev pub entry_of : ℕ → Reply → Next
entry_of level (reply rt_multibulk b o n cs) = found level rt_multibulk none n
entry_of level (reply rt_none b o n cs) = found level rt_none none n
entry_of level (reply rt_bulk_nil b o n cs) = found level rt_bulk_nil none n
entry_of level (reply rt_multibulk_nil b o n cs) = found level rt_multibulk_nil none n
entry_of level (reply t b o n cs) = found level t (some (b, o)) n

abbrev pub entries_of : ℕ → Replies → List Next
entries_of level nil = []
entries_of level (cons r rs) = entry_of level r ∷ entries_of level rs

-- A multibulk reply is followed by its children.
abbrev pub with_children : Reply → List Next
with_children (reply rt_multibulk b o n cs) = found 1 rt_multibulk none n ∷ entries_of 2 cs
with_children r = entry_of 1 r ∷ []

abbrev pub listing : Replies → List Next
listing nil = []
listing (cons r rs) = with_children r ++ listing rs

-- No multibulk reply, and a buffer where there is text
abbrev pub IsPlain : Reply → Type 0
IsPlain (reply rt_multibulk b o n cs) = ⊥
IsPlain (reply rt_none b o n cs) = Unit {0}
IsPlain (reply rt_bulk_nil b o n cs) = Unit {0}
IsPlain (reply rt_multibulk_nil b o n cs) = Unit {0}
IsPlain (reply t null_buffer o n cs) = ⊥
IsPlain (reply t b o n cs) = Unit {0}

abbrev pub AllPlain : Replies → Type 0
AllPlain nil = Unit {0}
AllPlain (cons r rs) = IsPlain r × AllPlain rs

abbrev pub IsShallow : Reply → Type 0
IsShallow (reply rt_multibulk b o n cs) = AllPlain cs
IsShallow r = IsPlain r

abbrev pub AllShallow : Replies → Type 0
AllShallow nil = Unit {0}
AllShallow (cons r rs) = IsShallow r × AllShallow rs

-- The replies from the `i`-th on
abbrev pub skip : ℕ → Replies → Replies
skip zero rs = rs
skip (suc i) nil = nil
skip (suc i) (cons r rs) = skip i rs

-- Behind the `i`-th entry of a list of `n`, where 0 is the head
abbrev pub after : ℕ → ℕ → ℕ
after n i = if ltb i n then suc i else 0

-- Where the cursor stands: at the `i`-th entry of the queue, with whatever the upper half of the stack
-- holds; or at the `j`-th child of the multibulk reply with the index `i`.
pub data Cursor : Type 0 where
  at_entry : ℕ → Option Node → Option Node → Cursor
  at_child : ℕ → ℕ → Cursor

abbrev pub standing : Batch → Cursor → Batch
standing b (at_entry i x y) = record b {
  current_reply_sp = 0;
  current_reply = some (node [] i) ∷ some head_node ∷ x ∷ y ∷ [];
}
standing b (at_child i j) = record b {
  current_reply_sp = 2;
  current_reply =
      some (node [] (after (count b.reply_queue) (suc i)))
      ∷ some head_node
      ∷ some (node (i ∷ []) j)
      ∷ some (node (i ∷ []) 0)
      ∷ [];
}

abbrev pub children_of : Option Reply → Replies
children_of none = nil
children_of (some r) = reply_children r

abbrev pub children_at : ℕ → Replies → Replies
children_at i rs = children_of (reply_at rs i)

-- What is still to be delivered
abbrev pub left : Replies → Cursor → List Next
left rs (at_entry i x y) = listing (skip i rs)
left rs (at_child i j) = entries_of 2 (skip j (children_at i rs)) ++ listing (skip (suc i) rs)

abbrev pub IsGood : Replies → Cursor → Type 0
IsGood rs (at_entry i x y) = Unit {0}
IsGood rs (at_child i j) = (r : Reply) × (reply_at rs i ≡ some r) × AllPlain (reply_children r)
