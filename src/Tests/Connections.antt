-- ===== src/Tests/Connections.antt =====
-- The theorems on libredis/connection.c at concrete connections.
use libredis.Base.{
  ◌≡◌, ◌≢◌, ◌<◌, refl, inr, inl, Bool, true, false, none, some, [], ◌∷◌, Bytes, arith, take, length,
}
use libredis.Base.Int.{pos}
use libredis.Buffer.{Buffer, Buffer_send, Buffer_new}
use libredis.Buffer.Grow.{IsValid}
use libredis.Reply.{nil}
use libredis.Batch.{Batch}
use libredis.Connection.{cs_connected, cs_aborted, Io, write_answer, Connection_abort}
use libredis.Connection.Address.{find_colon, split_address, default_port, addr_size}
use libredis.Connection.Abort.{HasAborted, connection_abort-HasAborted}
use libredis.Connection.Split.{split_address-host_port, split_address-no_colon}
use libredis.Connection.Write.{write_all}
use libredis.Connection.Write.Sends.{all_bytes, write_all-all_bytes}
use libredis.Connection.Read.{Event, Connection_handle_event}
use libredis.Connection.Read.Failed.{handle_event-failed}
use libredis.Tests.{codes, fresh}

-- Three bytes are to be sent.
abbrev hello : Buffer
hello = record {
  buff = codes "hello";
  grown = none;
  buff_size = 5;
  position = 0;
  limit = 3;
  capacity = 5;
}

hello-IsValid : IsValid hello
hello-IsValid = record {
  buff_len = refl;
  size_pos = omega arith;
  block = inl (refl, refl);
  in_limit = omega arith;
  in_capacity = omega arith;
  small = omega arith;
}

abbrev waiting : Batch
waiting = record {
  num_commands = 1;
  reply_queue = nil;
  write_buffer = hello;
  read_buffer = Buffer_new 8;
  current_reply_sp = 0;
  current_reply = [];
  error = none;
}

-- The socket takes two bytes, then the third.
abbrev connected : Io
connected = record {
  connection = record {
    addr = codes "localhost";
    serv = codes "6379";
    addrinfo = true;
    sockfd = pos 3;
    state = cs_connected;
    has_batch = true;
    parser = fresh;
  };
  batch = waiting;
  numevents = pos 0;
  fds = record { fd = pos 0; pollin = false; pollout = false } ∷ [];
  answers = write_answer 2 ∷ write_answer 1 ∷ [];
  sent = [];
}

connected-open : cs_connected ≢ cs_aborted
connected-open = ground arith

write_all-all_bytes_example :
    (s' : Io) × (write_all 0 connected ≡ some (tt, s')) × (all_bytes s' ≡ all_bytes connected)
unfolding Buffer_send
write_all-all_bytes_example =
    write_all-all_bytes 0 connected (λ ne. refl) hello-IsValid (omega arith)
      (inr (omega arith, inr (omega arith, refl)))

connection_abort-HasAborted_example :
    (cs_connected ≢ cs_aborted
      → ◌≡◌ {A = Bool} true true
      → (s' : Io) × (Connection_abort (codes "gone") connected ≡ some (tt, s'))
        × HasAborted connected (codes "gone") s')
    × (cs_connected ≢ cs_aborted
        → ◌≡◌ {A = Bool} true false
        → Connection_abort (codes "gone") connected ≡ none)
    × (cs_connected ≡ cs_aborted → Connection_abort (codes "gone") connected ≡ some (tt, connected))
connection_abort-HasAborted_example = connection_abort-HasAborted (codes "gone") connected

abbrev late : Event
late = record { read = false; write = false; timeout = true; error = false }

handle_event-failed_example :
    (t : Bytes) × ((s' : Io) × (Connection_handle_event late 0 connected ≡ some (tt, s'))
      × HasAborted connected t s')
handle_event-failed_example = handle_event-failed late 0 connected (inr refl) connected-open refl

split_address-host_port_example :
    split_address (codes "localhost:6380") ≡ some (codes "localhost", codes "6380")
unfolding find_colon
split_address-host_port_example =
    split_address-host_port (codes "localhost") (codes "6380") refl (omega arith) (omega arith)

split_address-no_colon_example :
    (length (codes "redis") < addr_size
      → split_address (codes "redis") ≡ some (codes "redis", default_port))
    × (length (codes "redis") ≡ addr_size
        → split_address (codes "redis") ≡ some (take 254 (codes "redis"), default_port))
    × (addr_size < length (codes "redis") → split_address (codes "redis") ≡ none)
unfolding find_colon
split_address-no_colon_example = split_address-no_colon (codes "redis") refl
