-- ===== src/Tests/Reads.antt =====
-- The theorems on `Connection_read_data` at one reply that arrives in two pieces, and at two replies of
-- which the first piece holds one and a part of the other.
use libredis.Base.{
  ◌≡◌, refl, ap, true, false, Option, none, some, List, [], ◌∷◌, ◌++◌, Bytes, arith,
}
use mathlib.Core.Path.{subst}
use libredis.Base.Int.{pos}
use libredis.Buffer.{
  Buffer, Buffer_new, Buffer_recv, Buffer_ensure_remaining, grow_limit, as_int, enlarge, put,
}
use libredis.Buffer.Grow.{new-IsWritable}
use libredis.Reply.{nil, rt_ok, rt_bulk}
use libredis.Batch.{head_node}
use libredis.Connection.{cs_connected, Io, read_answer}
use libredis.Connection.Read.{Connection_read_data}
use libredis.Connection.Read.Steps.{Arrive}
use libredis.Connection.Read.Delivers.{read_data-DeliversAll}
use libredis.Connection.Read.Stream.{DeliversAll, AllEncode}
use libredis.Connection.Read.Values.{ClientSees, values_shown, read_data-ClientSees}
use libredis.Parser.Valid.{reset-IsValid}
use libredis.Parser.Wire.{IsCount, Encodes, Value, bulk, status}
use libredis.Tests.{codes, fresh}

abbrev pieces : List Bytes
pieces = codes "$2\r\na" ∷ codes "b\r\n" ∷ []

abbrev expecting : Io
expecting = record {
  connection = record {
    addr = codes "localhost";
    serv = codes "6379";
    addrinfo = true;
    sockfd = pos 3;
    state = cs_connected;
    has_batch = true;
    parser = fresh;
  };
  batch = record {
    num_commands = 1;
    reply_queue = nil;
    write_buffer = Buffer_new 8;
    read_buffer = Buffer_new 64;
    current_reply_sp = 0;
    current_reply = some head_node ∷ some head_node ∷ none ∷ none ∷ [];
    error = none;
  };
  numevents = pos 0;
  fds = record { fd = pos 3; pollin = false; pollout = false } ∷ [];
  answers = read_answer (codes "$2\r\na") ∷ read_answer (codes "b\r\n") ∷ [];
  sent = [];
}

two-IsCount : IsCount b'2' [] 2
two-IsCount = record { first = refl; others = tt; value = refl; is_int = omega arith }

pub pieces-Encodes :
    (rest : Bytes) → Encodes (bulk (some (codes "ab"))) rest (codes "$2\r\nab\r\n" ++ rest)
pieces-Encodes rest = (b'2', [], two-IsCount, refl)

abbrev taken : Option Buffer → Buffer
taken none = Buffer_new 0
taken (some b) = b

abbrev after_first : Buffer
after_first = taken (Buffer_recv (Buffer_new 64) (some (codes "$2\r\na")))

second-Arrive : Arrive after_first (codes "b\r\n" ∷ [])
unfolding Buffer_new Buffer_recv Buffer_ensure_remaining grow_limit as_int enlarge put
second-Arrive = (omega arith, omega arith, omega arith, omega arith, λ _ _. tt)

pieces-Arrive : Arrive (Buffer_new 64) pieces
unfolding Buffer_new Buffer_recv Buffer_ensure_remaining grow_limit as_int enlarge put
pieces-Arrive = (
  omega arith,
  omega arith,
  omega arith,
  omega arith,
  λ b' e. subst (λ (b : Buffer). Arrive b (codes "b\r\n" ∷ [])) (ap taken e) second-Arrive,
)

abbrev pub two_pieces : List Bytes
two_pieces = codes "+OK\r\n$2" ∷ codes "\r\nab\r\n" ∷ []

abbrev pub two_values : List (Value × Bytes)
two_values =
    (status (codes "OK"), codes "+OK\r\n") ∷ (bulk (some (codes "ab")), codes "$2\r\nab\r\n") ∷ []

abbrev expecting_two : Io
expecting_two = record expecting {
  batch = record expecting.batch { num_commands = 2 };
  answers = read_answer (codes "+OK\r\n$2") ∷ read_answer (codes "\r\nab\r\n") ∷ [];
}

abbrev after_ok : Buffer
after_ok = taken (Buffer_recv (Buffer_new 64) (some (codes "+OK\r\n$2")))

rest-Arrive : Arrive after_ok (codes "\r\nab\r\n" ∷ [])
unfolding Buffer_new Buffer_recv Buffer_ensure_remaining grow_limit as_int enlarge put
rest-Arrive = (omega arith, omega arith, omega arith, omega arith, λ _ _. tt)

pub two_pieces-Arrive : Arrive (Buffer_new 64) two_pieces
unfolding Buffer_new Buffer_recv Buffer_ensure_remaining grow_limit as_int enlarge put
two_pieces-Arrive = (
  omega arith,
  omega arith,
  omega arith,
  omega arith,
  λ b' e. subst (λ (b : Buffer). Arrive b (codes "\r\nab\r\n" ∷ [])) (ap taken e) rest-Arrive,
)

pub two_values-AllEncode : AllEncode two_values
two_values-AllEncode = (λ rest. ((omega arith, (omega arith, tt)), refl), (pieces-Encodes, tt))

read_data-DeliversAll_example :
    DeliversAll
      (codes "+OK\r\n$2\r\nab\r\n")
      two_values
      expecting_two
      (Connection_read_data 0 expecting_two)
unfolding Buffer_new
read_data-DeliversAll_example =
    read_data-DeliversAll 0 expecting_two two_values two_pieces refl refl refl refl
      (reset-IsValid 0 fresh) (new-IsWritable 64 (omega arith) (omega arith)) refl refl refl
      two_pieces-Arrive two_values-AllEncode refl

read_data-ClientSees_example :
    ClientSees two_values expecting_two none none (Connection_read_data 0 expecting_two)
unfolding Buffer_new
read_data-ClientSees_example =
    read_data-ClientSees 0 expecting_two two_values two_pieces none none refl refl refl refl
      (reset-IsValid 0 fresh) (new-IsWritable 64 (omega arith) (omega arith)) refl refl refl refl
      refl refl two_pieces-Arrive two_values-AllEncode refl

-- What the client is shown of the two values
two_values-shown :
    values_shown two_values
    ≡ (1, rt_ok, some (codes "OK"), 2) ∷ (1, rt_bulk, some (codes "ab"), 2) ∷ []
two_values-shown = refl
