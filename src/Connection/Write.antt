-- ===== src/Connection/Write.antt =====
-- `Connection_create_socket` and `Connection_write_data`
pub mod Sends
pub mod States
pub mod Complete
use Prim.Native.Char.{code}
use Prim.Native.String.{String}
use libredis.Base.{
  ℕ, zero, suc, ◌+◌, Bool, true, false, Option, none, some, List, [], ◌∷◌, ◌++◌, Bytes, take,
  length, if◌then◌else◌, ltb, leb,
}
use libredis.Base.Int.{ℤ, pos, negsuc}
use libredis.Batch.{Batch}
use libredis.Buffer.{Buffer, Buffer_remaining, Buffer_send, offered}
use libredis.Connection.{
  Connection, ConnectionState, cs_closed, cs_connecting, cs_connected, cs_aborted, Answer,
  getaddrinfo_answer, fcntl_answer, socket_answer, connect_ok, connect_in_progress, connect_failed,
  getsockopt_failed, getsockopt_answer, write_answer, read_answer, again, io_failed, Io, M, ◌>>=◌,
  ◌>>◌, pure, done, get_io, put_connection, put_batch, next_answer, notify_read, notify_write,
  Connection_abort,
}

-- The bytes of an ASCII text
abbrev pub text : String → Bytes
text String.[] = []
text (String.◌∷◌ c s) = code c ∷ text s

abbrev set_state : ConnectionState → M (Unit {0})
set_state st = do s ← get_io; put_connection (record s.connection { state = st })

-- The flags of the socket are read, then written.
set_nonblocking : M Bool
set_nonblocking = do
  got ← next_answer
  elim got [
    | fcntl_answer true ↦ do
      put_flags ← next_answer
      elim put_flags [
        | fcntl_answer true ↦ pure true
        | fcntl_answer false ↦
            Connection_abort (text "could not set socket to non-blocking mode") >> pure false
        | _ ↦ λ _. none
      ]
    | fcntl_answer false ↦ Connection_abort (text "could not get socket flags for") >> pure false
    | _ ↦ λ _. none
  ]

open_socket : M Bool
open_socket = do
  a ← next_answer
  s ← get_io
  elim a [
    | socket_answer (some fd) ↦
        put_connection (record s.connection { sockfd = pos fd }) >> set_nonblocking
    | socket_answer none ↦ do
      put_connection (record s.connection { sockfd = negsuc 0 })
      Connection_abort (text "could not create socket")
      pure false
    | _ ↦ λ _. none
  ]

-- `false` is the result -1.
unfoldable pub Connection_create_socket : M Bool
unfolding open_socket set_nonblocking
Connection_create_socket = do
  a ← next_answer
  s ← get_io
  elim a [
    | getaddrinfo_answer true ↦
        put_connection (record s.connection { addrinfo = true }) >> open_socket
    | getaddrinfo_answer false ↦ Connection_abort (text "could not resolve address") >> pure false
    | _ ↦ λ _. none
  ]

-- `connect`, and what is done with its result: whether the function goes on.
unfoldable pub connect_socket : ℕ → M Bool
connect_socket ordinal = do
  a ← next_answer
  elim a [
    | connect_ok ↦ set_state cs_connected >> pure true
    | connect_in_progress ↦ do set_state cs_connecting; notify_write ordinal; pure false
    | connect_failed errno ↦
        Connection_abort (text "connect error 1, errno " ++ errno) >> pure false
    | _ ↦ λ _. none
  ]

-- The two steps from CS_CLOSED and from CS_CONNECTING say whether the function goes on.
unfoldable pub start_connect : ℕ → M Bool
unfolding Connection_create_socket connect_socket
start_connect ordinal = do
  created ← Connection_create_socket
  elim created [ false ↦ pure false | true ↦ connect_socket ordinal ]

pub finish_connect : ℕ → M Bool
finish_connect ordinal = do
  a ← next_answer
  elim a [
    | getsockopt_failed errno ↦
        Connection_abort (text "getsockopt error for connect result, errno: " ++ errno)
        >> pure false
    | getsockopt_answer true errno ↦
        Connection_abort (text "connect error 2, errno: " ++ errno) >> pure false
    | getsockopt_answer false errno ↦ do set_state cs_connected; notify_read ordinal; pure true
    | _ ↦ λ _. none
  ]

-- One `write`: `true` for another round. The system takes at most what it is given.
pub write_once : ℕ → M Bool
write_once ordinal = do
  a ← next_answer
  s ← get_io
  let b = s.batch.write_buffer
  elim a [
    | write_answer n ↦
        if leb n (Buffer_remaining b)
        then (λ s. some (
          true,
          record s {
            batch = record s.batch { write_buffer = Buffer_send b (some n) };
            sent = s.sent ++ take n (offered b);
          },
        ))
        else (λ _. none)
    | again ↦ notify_write ordinal >> pure false
    | io_failed errno ↦ Connection_abort (text "write error, errno: " ++ errno) >> pure false
    | _ ↦ λ _. none
  ]

-- `while (Buffer_remaining(buffer))`; a round takes an answer.
pub write_loop : ℕ → ℕ → M (Unit {0})
unfolding write_once
write_loop zero ordinal s = none
write_loop (suc f) ordinal s = elim (ltb 0 (Buffer_remaining s.batch.write_buffer)) [
  | false ↦ some (tt, s)
  | true ↦ elim (write_once ordinal s) [
    | none ↦ none
    | some (true, s') ↦ write_loop f ordinal s'
    | some (false, s') ↦ some (tt, s')
  ]
]

abbrev pub write_all : ℕ → M (Unit {0})
write_all ordinal s = write_loop (suc (length s.answers)) ordinal s

-- Each `if` of the function tests the state that the ones before it left.
abbrev write_connected : ℕ → M (Unit {0})
write_connected ordinal = do
  s ← get_io
  elim s.connection.state [ cs_connected ↦ write_all ordinal | _ ↦ done ]

abbrev write_connecting : ℕ → M (Unit {0})
write_connecting ordinal = do
  s ← get_io
  elim s.connection.state [
    | cs_connecting ↦ do
      on ← finish_connect ordinal
      elim on [ true ↦ write_connected ordinal | false ↦ done ]
    | _ ↦ write_connected ordinal
  ]

unfoldable pub Connection_write_data : ℕ → M (Unit {0})
unfolding start_connect finish_connect write_loop
Connection_write_data ordinal = do
  s ← get_io
  elim s.connection.state [
    | cs_aborted ↦ done
    | cs_closed ↦ do
      on ← start_connect ordinal
      elim on [ true ↦ write_connecting ordinal | false ↦ done ]
    | _ ↦ write_connecting ordinal
  ]
