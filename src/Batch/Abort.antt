-- ===== src/Batch/Abort.antt =====
-- `Batch_abort`: every command that waits for a reply gets the error.
use libredis.Base.{
  ℕ, zero, suc, ◌+◌, ◌-◌, ◌^◌, ◌≤◌, ◌<◌, ◌≡◌, refl, sym, ap, ◌∙◌, some, [], ◌∷◌, ◌++◌, Bytes, arith,
  length, take, length-append,
}
use libredis.Buffer.{Buffer, Buffer_new, Buffer_data}
use libredis.Buffer.Grow.{new-IsWritable}
use libredis.Buffer.Write.{contents, write-HasWritten}
use libredis.Reply.{Reply, Reply_new, Replies, add_tail, rt_error, error_buffer}
use libredis.Batch.{Batch, Batch_add_reply, add_errors, Batch_abort}

-- A queue with `n` copies of a reply behind it
abbrev pub with_copies : ℕ → Reply → Replies → Replies
with_copies zero r rs = rs
with_copies (suc n) r rs = with_copies n r (add_tail rs r)

abbrev pub error_reply : Bytes → Reply
error_reply text = Reply_new rt_error error_buffer 0 (length text + 1)

add_errors_lem :
    (n len : ℕ) (b : Batch)
    → b.num_commands ≡ n
    → add_errors n len b ≡ record b {
      num_commands = 0;
      reply_queue = with_copies n (Reply_new rt_error error_buffer 0 len) b.reply_queue;
    }
unfolding add_errors Batch_add_reply
add_errors_lem zero len b e = rw e refl
add_errors_lem (suc n) len b e =
    add_errors_lem n len (Batch_add_reply b (Reply_new rt_error error_buffer 0 len))
      (omega (arith, e))

new_position : (n : ℕ) → (Buffer_new n).position ≡ 0
unfolding Buffer_new
new_position n = refl

new_contents : (n : ℕ) → contents (Buffer_new n) ≡ []
unfolding Buffer_new
new_contents n = refl

room :
    (text : Bytes)
    → length text < 2 ^ 31 - 1
    → (Buffer_new (length text + 1)).position + length (text ++ 0 ∷ []) ≤ 2 ^ 61
room text h =
    let l = length-append text (0 ∷ []) in omega (arith, h, l, new_position (length text + 1))

-- `Batch_abort` with a text of less than 2^31 - 1 bytes succeeds: no command waits any more, one error
-- reply for each command that did stands at the end of the queue, the error buffer begins with the
-- text and its NUL, and the write buffer is as before.
pub abort_lem :
    (b : Batch) (text : Bytes)
    → length text < 2 ^ 31 - 1
    → (b' : Batch) × (Batch_abort b text ≡ some b')
      × (b'.num_commands ≡ 0)
      × (b'.reply_queue ≡ with_copies b.num_commands (error_reply text) b.reply_queue)
      × (b'.write_buffer ≡ b.write_buffer)
      × ((e : Buffer) × (b'.error ≡ some e)
          × (take (length text + 1) (Buffer_data e) ≡ text ++ 0 ∷ []))
unfolding Batch_abort
abort_lem b text h =
    let len = length text + 1 in
    let l = length-append text (0 ∷ []) in
    let (e, written, has) =
      write-HasWritten (Buffer_new len) (text ++ 0 ∷ [])
        (new-IsWritable len (omega arith) (omega arith)) (omega arith) (room text h) in
    let b1 : Batch = record b { error = some e } in
    let b2 : Batch = record b1 {
      num_commands = 0;
      reply_queue = with_copies b.num_commands (error_reply text) b.reply_queue;
    } in
    let p : e.position ≡ len = omega (arith, has.position_moved, new_position len) in
    (
      b2,
      rw written (ap some (add_errors_lem b.num_commands len b1 refl)),
      refl,
      refl,
      refl,
      (
        e,
        refl,
        ap (λ (k : ℕ). take k (Buffer_data e)) (sym p)
            ∙ has.appended
            ∙ ap (λ (xs : Bytes). xs ++ (text ++ 0 ∷ [])) (new_contents len),
      ),
    )
