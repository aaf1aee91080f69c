-- ===== src/Php/Connections.antt =====
-- `Redis::get_connection` of the PHP extension: the connections of a process, kept by their addresses.
pub mod Table
use libredis.Base.{
  ℕ, suc, Bool, true, false, ◌&&◌, Option, none, some, List, [], ◌∷◌, ◌++◌, Bytes, length,
  if◌then◌else◌, ◌==◌, ◌>>=◌,
}
use libredis.Base.Int.{ℤ}
use libredis.Parser.{ReplyParser}
use libredis.Connection.{Connection}
use libredis.Connection.Address.{Connection_new, created, rejected}
use libredis.Php.Error.{c_string}

abbrev pub bytes_eq : Bytes → Bytes → Bool
bytes_eq [] [] = true
bytes_eq (c ∷ cs) (d ∷ ds) = c == d && bytes_eq cs ds
bytes_eq _ _ = false

-- A table from texts to handles
abbrev pub lookup : Bytes → List (Bytes × ℕ) → Option ℕ
lookup a [] = none
lookup a ((b, h) ∷ t) = let rest = lookup a t in if bytes_eq a b then some h else rest

-- `g_connections`, and the connections that have been made; a handle is an index of these.
pub record Registry : Type 0 where
  pub table : List (Bytes × ℕ)
  pub connections : List Connection

-- The handle of the object that is returned; or an error of level E_ERROR, "Invalid address for Connection".
pub data Got : Type 0 where
  handle : ℕ → Got
  invalid_address : Got

-- What `Connection_new` finds in the memory that it is given, see there
pub record Memory : Type 0 where
  pub parser : ReplyParser
  pub sockfd : ℤ
  pub addrinfo : Bool

-- The entry is new: the address is not in the table.
abbrev pub add_connection : Bytes → Connection → Registry → Got × Registry
add_connection a c r = (
  handle (length r.connections),
  record { table = (a, length r.connections) ∷ r.table; connections = r.connections ++ c ∷ [] },
)

-- The text that `Connection_new` reads ends at the first NUL of the address, or at the one behind it.
pub new_connection : Memory → Bytes → Registry → Option (Got × Registry)
new_connection memory a r = do
  text ← c_string (a ++ 0 ∷ [])
  some (elim (Connection_new text memory.parser memory.sockfd memory.addrinfo) [
    | rejected _ _ ↦ (invalid_address, r)
    | created c ↦ add_connection a c r
  ])

pub get_connection : Memory → Bytes → Registry → Option (Got × Registry)
get_connection memory a r = elim (lookup a r.table) [
  | some h ↦ some (handle h, r)
  | none ↦ new_connection memory a r
]
