-- ===== src/Tests/Lives.antt =====
-- The theorem on the life of a connection, at an execution whose `connect` is in progress and then times out.
use libredis.Base.{refl, true, false, some, [], ◌∷◌, ◌≡◌, inr, Bytes, arith}
use libredis.Base.Int.{pos}
use libredis.Batch.{Batch_new}
use libredis.Buffer.{Buffer_flip}
use libredis.Parser.{ReplyParser_reset}
use libredis.Connection.{
  Connection, cs_closed, cs_connecting, Io, getaddrinfo_answer, socket_answer, fcntl_answer,
  connect_in_progress,
}
use libredis.Connection.{next_answer, notify}
use libredis.Connection.Write.{
  Connection_write_data, start_connect, connect_socket, Connection_create_socket,
}
use libredis.Connection.Read.{Event, Connection_execute_start, Connection_handle_event}
use libredis.Connection.Abort.{HasAborted}
use libredis.Connection.Read.Failed.{handle_event-failed}
use libredis.Connection.Read.Life.{Series, so_far, started, handled, Follows, series-Follows}
use libredis.Tests.{codes, fresh}

abbrev closed : Connection
closed = record {
  addr = codes "localhost";
  serv = codes "6379";
  addrinfo = false;
  sockfd = pos 0;
  state = cs_closed;
  has_batch = false;
  parser = fresh;
}

abbrev before : Io
before = record {
  connection = closed;
  batch = Batch_new;
  numevents = pos 0;
  fds = record { fd = pos 0; pollin = false; pollout = false } ∷ [];
  answers =
      getaddrinfo_answer true
      ∷ socket_answer (some 3)
      ∷ fcntl_answer true
      ∷ fcntl_answer true
      ∷ connect_in_progress
      ∷ [];
  sent = [];
}

-- `connect` is in progress.
abbrev connecting : Io
connecting = record before {
  connection = record closed {
    addrinfo = true;
    sockfd = pos 3;
    state = cs_connecting;
    has_batch = true;
    parser = ReplyParser_reset fresh;
  };
  batch = record Batch_new { write_buffer = Buffer_flip Batch_new.write_buffer };
  numevents = pos 1;
  fds = record { fd = pos 3; pollin = false; pollout = true } ∷ [];
  answers = [];
}

begins : Connection_execute_start 0 before ≡ some (tt, connecting)
unfolding Connection_execute_start Connection_write_data start_connect connect_socket
    Connection_create_socket next_answer notify
begins = refl

-- What the timeout leaves
abbrev timed_out : Event
timed_out = record { read = false; write = false; timeout = true; error = false }

fails_at :
    (t : Bytes) × ((u : Io) × (Connection_handle_event timed_out 0 connecting ≡ some (tt, u))
      × HasAborted connecting t u)
fails_at = handle_event-failed timed_out 0 connecting (inr refl) (ground arith) refl

abbrev series : Series before fails_at.1.0
series =
    handled (started so_far 0 before connecting refl begins) timed_out 0 connecting fails_at.1.0
      refl fails_at.1.1

series-Follows_example : Follows series
series-Follows_example = series-Follows before fails_at.1.0 series (refl, refl)
