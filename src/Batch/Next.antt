-- ===== src/Batch/Next.antt =====
-- `Batch_next_reply`: a walk over the reply queue and the children of multibulk replies, with a
-- stack of two levels.
use libredis.Base.{
  ℕ, zero, suc, ◌+◌, ◌-◌, ◌/◌, Bool, true, false, ◌&&◌, Option, none, some, List, [], ◌∷◌, ◌++◌,
  set, length, get_elem?, if◌then◌else◌, ltb, ◌==◌, ◌>>=◌,
}
use libredis.Reply.{
  Reply, Replies, nil, cons, count, ReplyType, Reply_type, Reply_length, reply_buffer, reply_offset,
  reply_children, BufferRef, null_buffer, rt_error, rt_none, rt_ok, rt_bulk_nil, rt_bulk,
  rt_multibulk_nil, rt_multibulk, rt_integer,
}
use libredis.Batch.{Batch, Node, node}

abbrev pub reply_at : Replies → ℕ → Option Reply
reply_at nil i = none
reply_at (cons r rs) zero = some r
reply_at (cons r rs) (suc i) = reply_at rs i

abbrev pub list_at : Replies → List ℕ → Option Replies
list_at rs [] = some rs
list_at rs (i ∷ path) = do r ← reply_at rs i; list_at (reply_children r) path

-- `node->next`
abbrev pub next_node : Replies → Node → Option Node
next_node queue (node path i) = do
  l ← list_at queue path
  some (node path (if ltb i (count l) then suc i else 0))

-- `list_entry`; the head of a list is no reply.
abbrev pub list_entry : Replies → Node → Option Reply
list_entry queue (node path zero) = none
list_entry queue (node path (suc i)) = do l ← list_at queue path; reply_at l i

-- `&reply->children` of the reply at a node
abbrev pub children_node : Node → Node
children_node (node path i) = node (path ++ (i - 1) ∷ []) 0

abbrev pub path_eq : List ℕ → List ℕ → Bool
path_eq [] [] = true
path_eq (i ∷ p) (j ∷ q) = i == j && path_eq p q
path_eq _ _ = false

abbrev pub node_eq : Node → Node → Bool
node_eq (node p i) (node q j) = path_eq p q && i == j

abbrev pub slot : Batch → ℕ → Option Node
slot b i = do s ← get_elem? b.current_reply i; s

-- A write outside the array is undefined.
abbrev pub set_slot : Batch → ℕ → Node → Option Batch
set_slot b i n =
    if ltb i (length b.current_reply)
    then some (record b { current_reply = set b.current_reply i (some n) })
    else none

-- `Reply_data`: where the text of a reply begins; a NULL buffer is undefined.
unfoldable pub Reply_data : Reply → Option (BufferRef × ℕ)
Reply_data r = elim (reply_buffer r) [ null_buffer ↦ none | b ↦ some (b, reply_offset r) ]

-- What a call gives back: -1, 0, or the level with the out parameters
pub data Next : Type 0 where
  invalid_argument no_reply : Next
  found : ℕ → ReplyType → Option (BufferRef × ℕ) → ℕ → Next

abbrev with_data : ℕ → Reply → Batch → Option (Next × Batch)
with_data level r b = do
  d ← Reply_data r
  some (found level (Reply_type r) (some d) (Reply_length r), b)

abbrev without_data : ℕ → Reply → Batch → Option (Next × Batch)
without_data level r b = some (found level (Reply_type r) none (Reply_length r), b)

-- A multibulk reply: its children come next, at the next level of the stack.
unfoldable pub descend : Node → Reply → Batch → Option (Next × Batch)
descend current r b = do
  let sp = b.current_reply_sp
  n ← next_node b.reply_queue current
  b1 ← set_slot b sp n
  b2 ← set_slot b1 (sp + 2) (children_node current)
  b3 ← set_slot b2 (sp + 3) (children_node current)
  some (
    found (sp / 2 + 1) (Reply_type r) none (Reply_length r),
    record b3 { current_reply_sp = sp + 2 },
  )

unfoldable pub deliver_type : ReplyType → Node → Reply → Batch → Option (Next × Batch)
deliver_type rt_ok current r b = with_data (b.current_reply_sp / 2 + 1) r b
deliver_type rt_error current r b = with_data (b.current_reply_sp / 2 + 1) r b
deliver_type rt_bulk current r b = with_data (b.current_reply_sp / 2 + 1) r b
deliver_type rt_integer current r b = with_data (b.current_reply_sp / 2 + 1) r b
deliver_type rt_multibulk current r b = descend current r b
deliver_type rt_none current r b = without_data (b.current_reply_sp / 2 + 1) r b
deliver_type rt_bulk_nil current r b = without_data (b.current_reply_sp / 2 + 1) r b
deliver_type rt_multibulk_nil current r b = without_data (b.current_reply_sp / 2 + 1) r b

unfoldable pub deliver : Node → Batch → Option (Next × Batch)
unfolding deliver_type descend Reply_data
deliver current b = do r ← list_entry b.reply_queue current; deliver_type (Reply_type r) current r b

-- The end of a level: the level above goes on, where there is one.
unfoldable pub ascend : Batch → Option (Next × Batch)
unfolding deliver
ascend b =
    let b' = record b { current_reply_sp = b.current_reply_sp - 2 } in
    if ltb 0 b.current_reply_sp
    then (do
      current ← slot b' b'.current_reply_sp
      last ← slot b' (b'.current_reply_sp + 1)
      if node_eq current last then some (no_reply, b') else deliver current b')
    else some (no_reply, b)

-- The flag says that the three out parameters are not NULL.
unfoldable pub Batch_next_reply : Bool → Batch → Option (Next × Batch)
Batch_next_reply false b = some (invalid_argument, b)
Batch_next_reply true b = do
  current ← slot b b.current_reply_sp
  last ← slot b (b.current_reply_sp + 1)
  n ← next_node b.reply_queue current
  b' ← set_slot b b.current_reply_sp n
  if node_eq n last then ascend b' else deliver n b'
