-- ===== src/Connection/Address.antt =====
-- `Connection_new`: the address is copied into arrays of fixed size.
use libredis.Base.{
  ℕ, zero, suc, ◌+◌, Bool, false, Option, none, some, [], ◌∷◌, Bytes, take, drop, length,
  if◌then◌else◌, ltb, ◌==◌,
}
use libredis.Base.Int.{ℤ, pos, is_positive}
use libredis.Connection.{Connection, cs_closed}
use libredis.Parser.{ReplyParser}

abbrev pub addr_size : ℕ
addr_size = 255

abbrev pub serv_size : ℕ
serv_size = 20

-- `strchr(text, ':')`, as an index
unfoldable pub find_colon : Bytes → Option ℕ
find_colon [] = none
find_colon (c ∷ cs) =
    if c == b':' then some 0 else (elim (find_colon cs) [ none ↦ none | some i ↦ some (suc i) ])

-- What `snprintf(array, size, "%s", text)` leaves in an array of at least one byte
abbrev pub stored : ℕ → Bytes → Bytes
stored zero text = []
stored (suc n) text = take n text

abbrev pub default_port : Bytes
default_port = b'6' ∷ b'3' ∷ b'7' ∷ b'9' ∷ []

-- The two arrays, or `none` for an invalid address
unfoldable pub split_address : Bytes → Option (Bytes × Bytes)
split_address in_addr = elim (find_colon in_addr) [
  | none ↦
      if ltb addr_size (length in_addr)
      then none
      else if ltb serv_size (length default_port)
      then none
      else some (stored addr_size in_addr, stored serv_size default_port)
  | some i ↦
      if ltb addr_size (i + 1)
      then none
      else if ltb serv_size (length (drop (i + 1) in_addr))
      then none
      else some (stored (suc i) in_addr, stored serv_size (drop (i + 1) in_addr))
]

-- A new connection; or NULL, after `Connection_free` has closed the descriptor and freed the address
-- list that happened to be in the memory, as nothing has set them yet.
pub data NewConnection : Type 0 where
  created : Connection → NewConnection
  rejected : Option ℤ → Bool → NewConnection

unfoldable pub Connection_new : Bytes → ReplyParser → ℤ → Bool → NewConnection
unfolding split_address
Connection_new in_addr parser old_sockfd old_addrinfo = elim (split_address in_addr) [
  | none ↦ rejected (if is_positive old_sockfd then some old_sockfd else none) old_addrinfo
  | some (a, s) ↦ created (record {
    addr = a;
    serv = s;
    addrinfo = false;
    sockfd = pos 0;
    state = cs_closed;
    has_batch = false;
    parser = parser;
  })
]
