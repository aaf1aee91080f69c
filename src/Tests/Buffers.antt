-- ===== src/Tests/Buffers.antt =====
-- The theorems on libredis/buffer.c and libredis/batch.c at concrete buffers and batches.
use libredis.Base.{
  ℕ, ◌+◌, ◌≤◌, ◌<◌, ◌≡◌, refl, inl, inr, length-replicate, replicate, none, some, [], ◌∷◌, ◌++◌,
  arith, take,
}
use libredis.Base.Decimal.{print_onto}
use libredis.Buffer.{
  Buffer, Buffer_new, Buffer_write, Buffer_flip, Buffer_send, Buffer_data, grow_limit,
  Buffer_ensure_remaining, enlarge, as_int,
}
use libredis.Buffer.Grow.{IsValid, grow_limit_total, new-IsWritable, max_size}
use libredis.Buffer.Write.{HasWritten, contents, write-HasWritten}
use libredis.Buffer.Socket.{transmitted, transmitted-flip, recv_room, Received, recv_lem}
use libredis.Reply.{reply, nil, cons, rt_ok, read_buffer}
use libredis.Batch.{Batch, node, head_node, Batch_new, Batch_recycle, Batch_write_set, Batch_abort}
use libredis.Batch.Commands.{Adds, set_text, write_set-Adds}
use libredis.Batch.Abort.{with_copies, error_reply, abort_lem}
use libredis.Batch.Reuse.{recycle-new}
use libredis.Tests.{codes}

write-HasWritten_example :
    (b' : Buffer) × (Buffer_write (Buffer_new 4) (codes "hello") ≡ some b')
    × HasWritten (Buffer_new 4) (codes "hello") b'
unfolding Buffer_new
write-HasWritten_example =
    write-HasWritten (Buffer_new 4) (codes "hello") (new-IsWritable 4 (omega arith) (omega arith))
      (omega arith) (omega arith)

grow_limit_total_example :
    (l : ℕ) × (grow_limit 6 4 2 20 ≡ some l) × (2 + 20 ≤ l) × (4 ≤ l) × (l ≤ max_size)
grow_limit_total_example =
    grow_limit_total 5 4 2 20 (omega arith) (omega arith) (omega arith) (omega arith) (omega arith)

-- Three of five bytes are written.
abbrev hello : Buffer
hello = record {
  buff = codes "hello";
  grown = none;
  buff_size = 5;
  position = 3;
  limit = 5;
  capacity = 5;
}

hello-IsValid : IsValid hello
hello-IsValid = record {
  buff_len = refl;
  size_pos = omega arith;
  block = inl (refl, refl);
  in_limit = omega arith;
  in_capacity = omega arith;
  small = omega arith;
}

transmitted-flip_example : transmitted (Buffer_flip hello) (2 ∷ 1 ∷ []) ≡ contents hello
unfolding Buffer_flip Buffer_send
transmitted-flip_example =
    transmitted-flip hello (2 ∷ 1 ∷ []) hello-IsValid (omega arith, (omega arith, refl))

recv_lem_example :
    (0 < recv_room (Buffer_new 16))
    × Received (Buffer_new 16) (some (codes "hi"))
    × Received (Buffer_new 16) none
unfolding Buffer_new Buffer_ensure_remaining grow_limit enlarge as_int
recv_lem_example =
    recv_lem (Buffer_new 16) (codes "hi") (new-IsWritable 16 (omega arith) (omega arith))
      (omega arith) (omega arith) (omega arith)

-- Two commands wait, and one reply is there.
abbrev waiting : Batch
waiting = record {
  num_commands = 2;
  reply_queue = cons (reply rt_ok read_buffer 1 2 nil) nil;
  write_buffer = Buffer_new 8;
  read_buffer = Buffer_new 8;
  current_reply_sp = 0;
  current_reply = [];
  error = none;
}

write_set-Adds_example :
    (b' : Batch) × (Batch_write_set waiting (codes "k") (codes "blaat") ≡ some b')
    × Adds waiting (set_text (codes "k") (codes "blaat")) 1 b'
unfolding Buffer_new print_onto
write_set-Adds_example =
    write_set-Adds waiting (codes "k") (codes "blaat")
      (new-IsWritable 8 (omega arith) (omega arith)) (omega arith) (omega arith) (omega arith)

abort_lem_example :
    (b' : Batch) × (Batch_abort waiting (codes "gone") ≡ some b')
    × (b'.num_commands ≡ 0)
    × (b'.reply_queue ≡ with_copies 2 (error_reply (codes "gone")) waiting.reply_queue)
    × (b'.write_buffer ≡ waiting.write_buffer)
    × ((e : Buffer) × (b'.error ≡ some e) × (take 5 (Buffer_data e) ≡ codes "gone" ++ 0 ∷ []))
abort_lem_example = abort_lem waiting (codes "gone") (omega arith)

-- Used: a reply in a buffer that has grown, and an error
abbrev used_read : Buffer
used_read = record (Buffer_new 12288) {
  grown = some (replicate 24576 7);
  position = 20000;
  limit = 24576;
  capacity = 24576;
}

abbrev used_batch : Batch
used_batch = record waiting {
  read_buffer = used_read;
  write_buffer = Buffer_new 4096;
  current_reply = some (node [] 1) ∷ some (node (0 ∷ []) 1) ∷ none ∷ none ∷ [];
  error = some (Buffer_new 8);
}

used_read-IsValid : IsValid used_read
unfolding Buffer_new
used_read-IsValid = record {
  buff_len = length-replicate {A = ℕ} 12288 0;
  size_pos = omega arith;
  block = inr (replicate 24576 7, refl, length-replicate {A = ℕ} 24576 7, omega arith);
  in_limit = omega arith;
  in_capacity = omega arith;
  small = omega arith;
}

recycle-new_example :
    Batch_recycle used_batch
    ≡ some (record Batch_new { current_reply = some head_node ∷ some head_node ∷ none ∷ none ∷ [] })
unfolding Buffer_new
recycle-new_example =
    recycle-new used_batch (some (node [] 1)) (some (node (0 ∷ []) 1)) (none ∷ none ∷ [])
      used_read-IsValid (new-IsWritable 4096 (omega arith) (omega arith)).valid refl refl refl
