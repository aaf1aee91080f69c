-- ===== src/Connection.antt =====
-- `Connection` of libredis/connection.c: the address, the states of a non-blocking socket, and the
-- handlers of its events. What the operating system answers to each call is a script, taken in
-- order; a function is `none` where the script ends or answers another call.
pub mod Address
pub mod Write
pub mod Read
pub mod Split
pub mod Abort
pub mod States
use libredis.Base.{
  ℕ, zero, suc, ◌+◌, Bool, true, false, ◌||◌, Option, none, some, List, [], ◌∷◌, ◌++◌, Bytes, take,
  length, set, get_elem?, if◌then◌else◌,
}
use libredis.Base.Int.{ℤ, pos, negsuc, increment, is_positive}
use libredis.Batch.{Batch, Batch_abort}
use libredis.Parser.{ReplyParser}

pub data ConnectionState : Type 0 where
  cs_closed cs_connecting cs_connected cs_aborted : ConnectionState

-- `struct _Connection`; `current_batch` and `current_executor` are set together, and only whether
-- they are NULL is kept here: the batch is that of the `Io`.
pub record Connection : Type 0 where
  pub addr : Bytes
  pub serv : Bytes
  pub addrinfo : Bool
  pub sockfd : ℤ
  pub state : ConnectionState
  pub has_batch : Bool
  pub parser : ReplyParser

-- `struct pollfd`, with its events as two flags
pub record PollFd : Type 0 where
  pub fd : ℤ
  pub pollin : Bool
  pub pollout : Bool

-- What the system answers. A failure carries the text that the error message is made of.
pub data Answer : Type 0 where
  getaddrinfo_answer fcntl_answer : Bool → Answer
  socket_answer : Option ℕ → Answer
  connect_ok connect_in_progress : Answer
  connect_failed : Bytes → Answer
  getsockopt_failed : Bytes → Answer
  getsockopt_answer : Bool → Bytes → Answer
  write_answer : ℕ → Answer
  read_answer : Bytes → Answer
  again : Answer
  io_failed : Bytes → Answer

-- A connection at work on its current batch, with the part of the executor that it changes, the
-- script that is left, and the bytes sent so far.
pub record Io : Type 0 where
  pub connection : Connection
  pub batch : Batch
  pub numevents : ℤ
  pub fds : List PollFd
  pub answers : List Answer
  pub sent : Bytes

abbrev pub M : Type 0 → Type 0
M A = Io → Option (A × Io)

infixl 5 ◌>>=◌ ◌>>◌
abbrev pub ◌>>=◌ : {A B : Type 0} → M A → (A → M B) → M B
◌>>=◌ m f s = elim (m s) [ none ↦ none | some (a, s') ↦ f a s' ]

abbrev pub ◌>>◌ : {A B : Type 0} → M A → M B → M B
m >> k = m >>= λ _. k

abbrev pub pure : {A : Type 0} → A → M A
pure a s = some (a, s)

abbrev pub done : M (Unit {0})
done = pure tt

abbrev pub get_io : M Io
get_io s = some (s, s)

abbrev pub put_connection : Connection → M (Unit {0})
put_connection c s = some (tt, record s { connection = c })

abbrev pub put_batch : Batch → M (Unit {0})
put_batch b s = some (tt, record s { batch = b })

-- A value that may be undefined
abbrev pub lift : {A : Type 0} → Option A → M A
lift none s = none
lift (some a) s = some (a, s)

-- The next answer of the script
unfoldable pub next_answer : M Answer
next_answer s = elim s.answers [ [] ↦ none | a ∷ later ↦ some (a, record s { answers = later }) ]

-- `Executor_notify_event`: the entry at the ordinal is changed, and the event counted. An ordinal
-- out of range is undefined.
unfoldable pub notify : (PollFd → PollFd) → ℕ → M (Unit {0})
notify change ordinal s = elim (get_elem? s.fds ordinal) [
  | none ↦ none
  | some e ↦ some (
    tt,
    record s {
      fds = set s.fds ordinal (record (change e) { fd = s.connection.sockfd });
      numevents = increment s.numevents;
    },
  )
]

-- EVENT_READ, and EVENT_WRITE
abbrev pub notify_read : ℕ → M (Unit {0})
notify_read = notify (λ e. record e { pollin = true })

abbrev pub notify_write : ℕ → M (Unit {0})
notify_write = notify (λ e. record e { pollout = true })

pub Connection_close : Connection → Connection
Connection_close c = record c {
  sockfd = if is_positive c.sockfd then pos 0 else c.sockfd;
  addrinfo = false;
}

-- MAX_ERROR_SIZE with its terminating NUL
abbrev pub max_error_text : ℕ
max_error_text = 254

-- "Connection error %s [addr: %s:%s]"
abbrev pub long_error_text : Connection → Bytes → Bytes
long_error_text c text =
    b'C'
    ∷ b'o'
    ∷ b'n'
    ∷ b'n'
    ∷ b'e'
    ∷ b'c'
    ∷ b't'
    ∷ b'i'
    ∷ b'o'
    ∷ b'n'
    ∷ b' '
    ∷ b'e'
    ∷ b'r'
    ∷ b'r'
    ∷ b'o'
    ∷ b'r'
    ∷ b' '
    ∷ (take max_error_text text
        ++ (b' '
            ∷ b'['
            ∷ b'a'
            ∷ b'd'
            ∷ b'd'
            ∷ b'r'
            ∷ b':'
            ∷ b' '
            ∷ (c.addr ++ (b':' ∷ (c.serv ++ (b']' ∷ []))))))

-- Each of the two texts is cut to its array.
pub error_text : Connection → Bytes → Bytes
error_text c text = take max_error_text (long_error_text c text)

-- Without a current batch, `Batch_abort` is given NULL.
pub abort_open : Bytes → Io → Option (Unit {0} × Io)
abort_open text s = elim s.connection.has_batch [
  | false ↦ none
  | true ↦ elim (Batch_abort s.batch (error_text s.connection text)) [
    | none ↦ none
    | some b ↦ some (
      tt,
      record s {
        batch = b;
        connection = record (Connection_close s.connection) {
          has_batch = false;
          state = cs_aborted;
        };
      },
    )
  ]
]

abbrev pub abort_in : ConnectionState → Bytes → M (Unit {0})
abort_in cs_aborted text s = some (tt, s)
abort_in _ text s = abort_open text s

pub Connection_abort : Bytes → M (Unit {0})
Connection_abort text s = abort_in s.connection.state text s
