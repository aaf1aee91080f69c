-- ===== src/Batch/Reuse.antt =====
-- `_Batch_free` and `Batch_new` of libredis/batch.c on a batch that is used again.
use libredis.Base.{
  ℕ, ◌≡◌, refl, sym, true, ap, ◌∙◌, Option, some, List, [], ◌∷◌, ◌++◌, Bytes, arith, length, drop,
  replicate, leb, append_nil,
}
use libredis.Buffer.{Buffer, Buffer_new, Buffer_clear, Buffer_fill}
use libredis.Buffer.Grow.{IsValid}
use libredis.Batch.{
  Batch, Node, head_node, default_read_buff_size, default_write_buff_size, Batch_new, Batch_recycle,
}

drop-length_all : (xs : Bytes) → drop (length xs) xs ≡ []
drop-length_all [] = refl
drop-length_all (x ∷ xs) = drop-length_all xs

filled :
    (size : ℕ) (xs : Bytes) → length xs ≡ size → replicate size 0 ++ drop size xs ≡ replicate size 0
filled size xs h =
    ap (λ (n : ℕ). replicate size 0 ++ drop n xs) (sym h)
    ∙ ap (λ (l : Bytes). replicate size 0 ++ l) (drop-length_all xs)
    ∙ append_nil (replicate size 0)

-- A buffer that is cleared and filled is a new one, whatever was in it and however it has grown.
fill_clear-new :
    (b : Buffer) → IsValid b → Buffer_fill (Buffer_clear b) 0 ≡ some (Buffer_new b.buff_size)
unfolding Buffer_fill Buffer_clear Buffer_new
fill_clear-new b v =
    let fits : leb b.buff_size (length b.buff) ≡ true = let e = v.buff_len in ground arith in
    rw (fits, filled b.buff_size b.buff v.buff_len) refl

-- A batch that goes back to the free list with valid buffers, of the sizes that `Batch_new` gave them, with whatever
-- commands, replies, error and cursor: the freeing stays inside the blocks, and `Batch_new` then gives a batch
-- that equals a new one, but for the two slots of the cursor's stack that a new one leaves indeterminate.
pub recycle-new :
    (b : Batch) (first second : Option Node) (slots : List (Option Node))
    → IsValid b.read_buffer
    → IsValid b.write_buffer
    → b.read_buffer.buff_size ≡ default_read_buff_size
    → b.write_buffer.buff_size ≡ default_write_buff_size
    → b.current_reply ≡ first ∷ second ∷ slots
    → Batch_recycle b
      ≡ some (record Batch_new { current_reply = some head_node ∷ some head_node ∷ slots })
unfolding Batch_recycle Batch_new
recycle-new b first second slots read written read_size write_size stack =
    let r : Buffer_fill (Buffer_clear b.read_buffer) 0 ≡ some (Buffer_new default_read_buff_size) =
      fill_clear-new b.read_buffer read ∙ ap (λ (n : ℕ). some (Buffer_new n)) read_size in
    let w : Buffer_fill (Buffer_clear b.write_buffer) 0
        ≡ some (Buffer_new default_write_buff_size) =
      fill_clear-new b.write_buffer written ∙ ap (λ (n : ℕ). some (Buffer_new n)) write_size in
    rw (r, w, stack) refl
