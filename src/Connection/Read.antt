-- ===== src/Connection/Read.antt =====
-- `Connection_read_data`, `Connection_execute_start` and `Connection_handle_event`
pub mod Failed
pub mod States
pub mod Life
pub mod Steps
pub mod Stream
pub mod Pipeline
pub mod Delivers
pub mod Values
use libredis.Base.{
  ℕ, zero, suc, ◌+◌, Bool, true, false, Option, none, some, List, [], ◌∷◌, ◌++◌, Bytes, length,
  if◌then◌else◌, ltb, leb,
}
use libredis.Batch.{Batch, Batch_has_command, Batch_add_reply}
use libredis.Buffer.{
  Buffer, Buffer_data, Buffer_position, Buffer_recv, Buffer_flip, recv_reserve,
  Buffer_ensure_remaining, Buffer_remaining,
}
use libredis.Buffer.Socket.{recv_room}
use libredis.Parser.{
  ReplyParser, ReplyParser_reset, ReplyParser_execute, Result, rpr_error, rpr_more, rpr_reply,
  undefined,
}
use libredis.Connection.{
  Connection, ConnectionState, cs_closed, cs_connecting, cs_connected, cs_aborted, Answer,
  read_answer, again, io_failed, Io, M, ◌>>=◌, ◌>>◌, pure, done, get_io, put_connection, put_batch,
  lift, next_answer, notify_read, notify_write, Connection_abort,
}
use libredis.Connection.Write.{text, Connection_write_data}

-- RPR_MORE: one `read`; `true` for another round
pub read_more : ℕ → M Bool
read_more ordinal = do
  a ← next_answer
  s ← get_io
  let received = λ (d : Option Bytes). do
    b ← lift (Buffer_recv s.batch.read_buffer d)
    put_batch (record s.batch { read_buffer = b })
  elim a [
    | read_answer [] ↦ do received (some []); Connection_abort (text "read eof"); pure false
    | read_answer (c ∷ cs) ↦
        if leb (length (c ∷ cs)) (recv_room s.batch.read_buffer)
        then received (some (c ∷ cs)) >> pure true
        else (λ _. none)
    | again ↦ do received none; notify_read ordinal; pure false
    | io_failed errno ↦ do
      received none
      Connection_abort (text "read error, errno: " ++ errno)
      pure false
    | _ ↦ λ _. none
  ]

-- What the loop does with a result of the parser: `true` for another round
pub on_result : ℕ → Result → M Bool
on_result ordinal rpr_error s = (Connection_abort (text "result parse error") >> pure false) s
on_result ordinal rpr_more s = read_more ordinal s
on_result ordinal (rpr_reply r) s = some (true, record s { batch = Batch_add_reply s.batch r })
on_result ordinal undefined s = none

pub read_once : ℕ → M Bool
read_once ordinal s =
    let b = s.batch.read_buffer in
    elim (ReplyParser_execute s.connection.parser (Buffer_data b) (Buffer_position b)) [
      | none ↦ none
      | some (r, q) ↦
          on_result ordinal r (record s { connection = record s.connection { parser = q } })
    ]

-- `while (Batch_has_command(...))`; a round takes an answer or a command.
pub read_loop : ℕ → ℕ → M (Unit {0})
read_loop zero ordinal s = none
read_loop (suc f) ordinal s = elim (Batch_has_command s.batch) [
  | false ↦ some (tt, s)
  | true ↦ elim (read_once ordinal s) [
    | none ↦ none
    | some (true, s') ↦ read_loop f ordinal s'
    | some (false, s') ↦ some (tt, s')
  ]
]

abbrev pub read_in : ConnectionState → ℕ → M (Unit {0})
read_in cs_aborted ordinal s = some (tt, s)
read_in _ ordinal s = read_loop (suc (length s.answers + s.batch.num_commands)) ordinal s

pub Connection_read_data : ℕ → M (Unit {0})
Connection_read_data ordinal s = read_in s.connection.state ordinal s

-- The batch of the `Io` becomes the current one.
unfoldable pub Connection_execute_start : ℕ → M (Unit {0})
unfolding Connection_write_data
Connection_execute_start ordinal = do
  s ← get_io
  let c = s.connection
  put_connection (record c {
    has_batch = true;
    state = elim c.state [ cs_aborted ↦ cs_closed | st ↦ st ];
    parser = ReplyParser_reset c.parser;
  })
  put_batch (record s.batch { write_buffer = Buffer_flip s.batch.write_buffer })
  Connection_write_data ordinal
  s' ← get_io
  elim s'.connection.state [ cs_connected ↦ notify_read ordinal | _ ↦ done ]

-- `EventType` as its flags
pub record Event : Type 0 where
  pub read : Bool
  pub write : Bool
  pub timeout : Bool
  pub error : Bool

abbrev pub timeout_text : ConnectionState → Bytes
timeout_text cs_connecting = text "connect timeout"
timeout_text _ = text "read/write timeout"

abbrev pub handle_open : Event → ℕ → M (Unit {0})
handle_open e ordinal =
    if e.error
    then Connection_abort (text "event error")
    else if e.timeout
    then (do s ← get_io; Connection_abort (timeout_text s.connection.state))
    else (do
      if e.write then Connection_write_data ordinal else done
      if e.read then Connection_read_data ordinal else done)

abbrev pub handle_in : ConnectionState → Event → ℕ → M (Unit {0})
handle_in cs_aborted e ordinal s = some (tt, s)
handle_in _ e ordinal s = handle_open e ordinal s

pub Connection_handle_event : Event → ℕ → M (Unit {0})
Connection_handle_event e ordinal s = handle_in s.connection.state e ordinal s
