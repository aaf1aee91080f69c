-- ===== src/Batch.antt =====
-- `Batch` of libredis/batch.c: commands in a write buffer, replies in a queue, and the cursor of
-- `Batch_next_reply`. The number of commands is not negative: it is lowered only where one is left.
pub mod Next
pub mod Commands
pub mod Abort
pub mod Walk
pub mod Levels
pub mod Reuse
use libredis.Base.{
  ℕ, zero, suc, ◌+◌, ◌-◌, ◌*◌, ◌^◌, Bool, true, false, ◌&&◌, Option, none, some, List, [], ◌∷◌,
  ◌++◌, Bytes, length, set, get_elem?, if◌then◌else◌, ltb, ◌==◌, ◌>>=◌,
}
use libredis.Base.Int.{ℤ, pos}
use libredis.Base.Decimal.{print_long}
use libredis.Buffer.{Buffer, Buffer_new, Buffer_write, Buffer_clear, Buffer_fill, Buffer_data}
use libredis.Reply.{Reply, Reply_new, Replies, nil, cons, add_tail, rt_error, error_buffer}

-- A `struct list_head *`: the list that is reached from the reply queue by descending into the
-- children of the replies at these indices, and 0 for its head or `k` for its k-th entry.
pub data Node : Type 0 where
  node : List ℕ → ℕ → Node

-- `struct _Batch`. A slot of the cursor's stack is `none` while it is indeterminate.
pub record Batch : Type 0 where
  pub num_commands : ℕ
  pub reply_queue : Replies
  pub write_buffer : Buffer
  pub read_buffer : Buffer
  pub current_reply_sp : ℕ
  pub current_reply : List (Option Node)
  pub error : Option Buffer

abbrev pub head_node : Node
head_node = node [] 0

abbrev pub default_read_buff_size : ℕ
default_read_buff_size = 1024 * 12

abbrev pub default_write_buff_size : ℕ
default_write_buff_size = 1024 * 4

unfoldable pub Batch_new : Batch
Batch_new = record {
  num_commands = 0;
  reply_queue = nil;
  write_buffer = Buffer_new default_write_buff_size;
  read_buffer = Buffer_new default_read_buff_size;
  current_reply_sp = 0;
  current_reply = some head_node ∷ some head_node ∷ none ∷ none ∷ [];
  error = none;
}

-- `_Batch_free` where the batch goes to the free list, and `Batch_new` that takes it from there
pub Batch_recycle : Batch → Option Batch
Batch_recycle b = do
  read ← Buffer_fill (Buffer_clear b.read_buffer) 0
  written ← Buffer_fill (Buffer_clear b.write_buffer) 0
  some (record b {
    num_commands = 0;
    reply_queue = nil;
    read_buffer = read;
    write_buffer = written;
    current_reply_sp = 0;
    current_reply = set (set b.current_reply 0 (some head_node)) 1 (some head_node);
    error = none;
  })

-- A string with its length; `none` is NULL.
pub Batch_write : Batch → Option Bytes → ℕ → Option Batch
Batch_write b none n = some (record b { num_commands = b.num_commands + n })
Batch_write b (some []) n = some (record b { num_commands = b.num_commands + n })
Batch_write b (some (c ∷ cs)) n = do
  w ← Buffer_write b.write_buffer (c ∷ cs)
  some (record b { write_buffer = w; num_commands = b.num_commands + n })

-- A `long` has at most 20 characters, less than the 32 of `buff`.
unfoldable pub Batch_write_decimal : Batch → ℤ → Option Batch
Batch_write_decimal b decimal = Batch_write b (some (print_long decimal)) 0

abbrev pub crlf_text : Bytes
crlf_text = b'\r' ∷ b'\n' ∷ []

pub Batch_write_set : Batch → Bytes → Bytes → Option Batch
Batch_write_set b key value = do
  b1 ← Batch_write b (some (b'S' ∷ b'E' ∷ b'T' ∷ b' ' ∷ [])) 0
  b2 ← Batch_write b1 (some key) 0
  b3 ← Batch_write b2 (some (b' ' ∷ [])) 0
  b4 ← Batch_write_decimal b3 (pos (length value))
  b5 ← Batch_write b4 (some crlf_text) 0
  b6 ← Batch_write b5 (some value) 0
  Batch_write b6 (some crlf_text) 1

pub Batch_write_get : Batch → Bytes → Option Batch
Batch_write_get b key = do
  b1 ← Batch_write b (some (b'G' ∷ b'E' ∷ b'T' ∷ b' ' ∷ [])) 0
  b2 ← Batch_write b1 (some key) 0
  Batch_write b2 (some crlf_text) 1

abbrev pub Batch_has_command : Batch → Bool
Batch_has_command b = ltb 0 b.num_commands

unfoldable pub Batch_add_reply : Batch → Reply → Batch
Batch_add_reply b r = record b {
  num_commands = b.num_commands - 1;
  reply_queue = add_tail b.reply_queue r;
}

abbrev pub Batch_error : Batch → Option Bytes
Batch_error b = elim b.error [ none ↦ none | some e ↦ some (Buffer_data e) ]

-- `while (Batch_has_command(batch)) Batch_add_reply(...)`, for `n` commands
pub add_errors : ℕ → ℕ → Batch → Batch
add_errors zero len b = b
add_errors (suc n) len b =
    add_errors n len (Batch_add_reply b (Reply_new rt_error error_buffer 0 len))

-- The text goes with its terminating NUL, which the length of the replies counts.
pub Batch_abort : Batch → Bytes → Option Batch
Batch_abort b text = do
  let len = length text + 1
  e ← Buffer_write (Buffer_new len) (text ++ 0 ∷ [])
  some (add_errors b.num_commands len (record b { error = some e }))
