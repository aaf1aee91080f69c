-- ===== src/Tests/Methods.antt =====
-- The theorems on the methods of the PHP extension, at a GET that is answered with a text and a SET that is
-- answered with an error.
use libredis.Base.{ℕ, refl, false, some, [], ◌∷◌, ◌++◌, Bytes, arith, set, replicate}
use libredis.Base.Int.{pos}
use libredis.Buffer.{Buffer_new, Buffer_ensure_remaining, grow_limit, as_int, enlarge}
use libredis.Base.Decimal.{print_onto}
use libredis.Parser.Wire.{Encodes, bulk, failure}
use libredis.Connection.{write_answer, read_answer}
use libredis.Connection.Read.Steps.{Arrive}
use libredis.Php.{z_string, z_bool}
use libredis.Php.Methods.{State, returns, Connection_get_method, Connection_set_method}
use libredis.Php.Methods.Answers.{Answered}
use libredis.Php.Methods.Results.{one_turn, get_method-Answered, set_method-Answered}
use libredis.Tests.{codes}
use libredis.Tests.Reads.{pieces-Encodes}
use libredis.Tests.Exchanges.{server}

abbrev no_error : Bytes
no_error = replicate 255 0

abbrev at_rest : Bytes → ℕ → ℕ → State
at_rest from_server first second = record {
  world = record {
    connections = (server, 7) ∷ [];
    batches = [];
    executor = record { numevents = pos 0; fds = []; pairs = [] };
    answers = write_answer first ∷ write_answer second ∷ read_answer from_server ∷ [];
    sent = [] ∷ [];
  };
  error = no_error;
  unfreed = 0;
}

bulk-Arrive : Arrive (Buffer_new 12288) (codes "$2\r\nab\r\n" ∷ [])
unfolding Buffer_new Buffer_ensure_remaining grow_limit as_int enlarge
bulk-Arrive = (omega arith, omega arith, omega arith, omega arith, λ _ _. tt)

error-Arrive : Arrive (Buffer_new 12288) (codes "-ERR\r\n" ∷ [])
unfolding Buffer_new Buffer_ensure_remaining grow_limit as_int enlarge
error-Arrive = (omega arith, omega arith, omega arith, omega arith, λ _ _. tt)

get_method-Answered_example :
    Answered 0
      (codes "GET k\r\n")
      (returns (z_string (codes "ab")))
      no_error
      0
      (Connection_get_method 0 (codes "k") one_turn [] (at_rest (codes "$2\r\nab\r\n") 3 4))
get_method-Answered_example =
    get_method-Answered (at_rest (codes "$2\r\nab\r\n") 3 4) 0 server 7 []
      (bulk (some (codes "ab"))) (3 ∷ 4 ∷ []) (codes "$2\r\nab\r\n" ∷ []) [] refl refl refl refl
      bulk-Arrive pieces-Encodes (codes "k") (omega arith)
      (omega arith, omega arith, (omega arith, omega arith, refl))

error-Encodes : (rest : Bytes) → Encodes (failure (codes "ERR")) rest (codes "-ERR\r\n" ++ rest)
error-Encodes rest = ((omega arith, (omega arith, (omega arith, tt))), refl)

set_method-Answered_example :
    Answered 0 (codes "SET k 2\r\nxy\r\n") (returns (z_bool false)) (set no_error 0 0) 0 (
      Connection_set_method 0 (codes "k") (codes "xy") one_turn [] (at_rest (codes "-ERR\r\n") 9 4))
unfolding print_onto
set_method-Answered_example =
    set_method-Answered (at_rest (codes "-ERR\r\n") 9 4) 0 server 7 [] (failure (codes "ERR"))
      (9 ∷ 4 ∷ []) (codes "-ERR\r\n" ∷ []) [] refl refl refl refl error-Arrive error-Encodes
      (codes "k") (codes "xy") (omega arith) (omega arith)
      (omega arith, omega arith, (omega arith, omega arith, refl))
