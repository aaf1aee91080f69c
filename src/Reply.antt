-- ===== src/Reply.antt =====
-- `Reply` of libredis/reply.h and libredis/batch.c. A reply does not hold text: it points into a
-- buffer. A `struct list_head` of replies (libredis/list.h) is read as the sequence of its entries
-- from `head->next` on, and a reply that sits in one list sits in no other.
use libredis.Base.{ℕ, suc, Bool, true, false, Option, none, some}

-- `ReplyType`
pub data ReplyType : Type 0 where
  rt_error rt_none rt_ok rt_bulk_nil rt_bulk rt_multibulk_nil rt_multibulk rt_integer : ReplyType

-- The `Buffer *` of a reply: NULL, the batch's read buffer, or the batch's error buffer.
pub data BufferRef : Type 0 where
  null_buffer read_buffer error_buffer : BufferRef

-- `struct _Reply`: type, buffer, offset, len, children
mutual
  pub data Reply : Type 0 where
    reply : ReplyType → BufferRef → ℕ → ℕ → Replies → Reply

  pub data Replies : Type 0 where
    nil : Replies
    cons : Reply → Replies → Replies

abbrev pub Reply_new : ReplyType → BufferRef → ℕ → ℕ → Reply
Reply_new type buffer offset len = reply type buffer offset len nil

unfoldable pub add_tail : Replies → Reply → Replies
add_tail nil r = cons r nil
add_tail (cons x rs) r = cons x (add_tail rs r)

unfoldable pub Reply_add_child : Reply → Reply → Reply
Reply_add_child (reply t b o n cs) child = reply t b o n (add_tail cs child)

abbrev pub Reply_has_child : Reply → Bool
Reply_has_child (reply t b o n nil) = false
Reply_has_child (reply t b o n (cons c cs)) = true

-- The last entry of a list, and the list without it.
unfoldable pub pop_last : Reply → Replies → Reply × Replies
pop_last r nil = (r, nil)
pop_last r (cons x rs) = let (last, front) = pop_last x rs in (last, cons r front)

-- The child that `list_pop` unlinks (the last one) and the reply without it; `none` with no child.
unfoldable pub Reply_pop_child : Reply → Option (Reply × Reply)
Reply_pop_child (reply t b o n nil) = none
Reply_pop_child (reply t b o n (cons c cs)) =
    let (last, front) = pop_last c cs in some (last, reply t b o n front)

abbrev pub Reply_type : Reply → ReplyType
Reply_type (reply t b o n cs) = t

abbrev pub Reply_length : Reply → ℕ
Reply_length (reply t b o n cs) = n

abbrev pub reply_buffer : Reply → BufferRef
reply_buffer (reply t b o n cs) = b

abbrev pub reply_offset : Reply → ℕ
reply_offset (reply t b o n cs) = o

abbrev pub reply_children : Reply → Replies
reply_children (reply t b o n cs) = cs

abbrev pub count : Replies → ℕ
count nil = 0
count (cons r rs) = suc (count rs)
