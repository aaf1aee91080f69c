-- ===== src/Php/Connections/Table.antt =====
-- An address has one connection, and a connection one address.
use mathlib.Core.Path.{subst}
use libredis.Base.{
  ℕ, ◌+◌, ◌<◌, ◌≡◌, ◌≢◌, ◌⊎◌, inl, inr, refl, sym, ap, ◌∙◌, Bool, true, false, Option, none, some,
  [], ◌∷◌, ◌++◌, Bytes, arith, length, length-append, get_elem?, get_elem?-last,
  get_elem?-of_append, ◌==◌, ==_iff, Bool-cases, Option-cases,
}
use libredis.Base.Int.{ℤ}
use libredis.Connection.{Connection}
use libredis.Connection.Address.{NewConnection, Connection_new, created, rejected}
use libredis.Php.Error.{c_string}
use libredis.Php.Connections.{
  bytes_eq, lookup, Registry, handle, invalid_address, Memory, add_connection, new_connection,
  get_connection,
}

abbrev handle_or : ℕ → Option ℕ → ℕ
handle_or h none = h
handle_or h (some x) = x

same-bytes : (a : Bytes) → bytes_eq a a ≡ true
same-bytes [] = refl
same-bytes (c ∷ cs) = rw ((==_iff c c).1 refl) (same-bytes cs)

bytes_eq-same : (a b : Bytes) → bytes_eq a b ≡ true → a ≡ b
bytes_eq-same [] [] h = refl
bytes_eq-same [] (d ∷ ds) h = ground (arith, h)
bytes_eq-same (c ∷ cs) [] h = ground (arith, h)
bytes_eq-same (c ∷ cs) (d ∷ ds) h = elim (Bool-cases (c == d)) [
  | inl e ↦
      let rest : bytes_eq cs ds ≡ true = rw e at h in
      ap (λ (x : ℕ). x ∷ cs) ((==_iff c d).0 e)
      ∙ ap (λ (l : Bytes). d ∷ l) (bytes_eq-same cs ds rest)
  | inr ne ↦ let no : false ≡ true = rw ne at h in ground (arith, no)
]

-- The text of an address, up to its first NUL, is a valid address, and the connection is the one that
-- `Connection_new` makes of it, in the memory that it is given.
abbrev pub IsMade : Bytes → Connection → Type 0
IsMade a c =
    (text : Bytes) × (memory : Memory) × (c_string (a ++ 0 ∷ []) ≡ some text)
    × (Connection_new text memory.parser memory.sockfd memory.addrinfo ≡ created c)

-- Every handle of the table is that of a connection made of its address, and no two addresses have the
-- same one.
pub record IsTable (r : Registry) : Type 0 where
  pub made :
      (a : Bytes) (h : ℕ)
      → lookup a r.table ≡ some h
      → (c : Connection) × (get_elem? r.connections h ≡ some c) × IsMade a c
  pub in_range : (a : Bytes) (h : ℕ) → lookup a r.table ≡ some h → h < length r.connections
  pub one_address :
      (a b : Bytes) (h : ℕ) → lookup a r.table ≡ some h → lookup b r.table ≡ some h → a ≡ b

other-bytes : (a b : Bytes) → a ≢ b → bytes_eq a b ≡ false
other-bytes a b ne = elim (Bool-cases (bytes_eq a b)) [
  | inl e ↦ absurd (ne (bytes_eq-same a b e))
  | inr e ↦ e
]

c_string_total : (a : Bytes) → (text : Bytes) × (c_string (a ++ 0 ∷ []) ≡ some text)
unfolding c_string
c_string_total [] = ([], refl)
c_string_total (c ∷ cs) =
    let (rest, e) = c_string_total cs in
    elim (Bool-cases (c == 0)) [
      | inl zero_byte ↦ ([], rw zero_byte refl)
      | inr other ↦ (c ∷ rest, rw (other, e) refl)
    ]

-- A new address in front of the table
module _ (a : Bytes) (c : Connection) (r : Registry) (valid : IsTable r)
    (absent : lookup a r.table ≡ none) (is_made : IsMade a c) where
  abbrev added : Registry
  added = (add_connection a c r).1

  there : lookup a added.table ≡ some (length r.connections)
  there = rw (same-bytes a) refl

  elsewhere : (b : Bytes) → b ≢ a → lookup b added.table ≡ lookup b r.table
  elsewhere b ne = rw (other-bytes b a ne) refl

  one_more : length added.connections ≡ length r.connections + 1
  one_more = length-append r.connections (c ∷ [])

  -- A handle of the new table is the new one, of `a`, or one of the old table.
  by_address :
      (b : Bytes) (h : ℕ)
      → lookup b added.table ≡ some h
      → ((b ≡ a) × (h ≡ length r.connections)) ⊎ (lookup b r.table ≡ some h)
  by_address b h e = elim (Bool-cases (bytes_eq b a)) [
    | inl same ↦
        let new : some (length r.connections) ≡ some h = rw same at e in
        inl (bytes_eq-same b a same, ap (handle_or h) (sym new))
    | inr other ↦ inr (rw other at e)
  ]

  added-IsTable : IsTable added
  added-IsTable = record {
    made = λ b h e. elim (by_address b h e) [
      | inl (same, new) ↦ (
        c,
        ap (get_elem? added.connections) new ∙ get_elem?-last r.connections c,
        subst (λ (x : Bytes). IsMade x c) (sym same) is_made,
      )
      | inr old ↦
          let (c', there', made') = valid.made b h old in
          (
            c',
            get_elem?-of_append h r.connections (c ∷ []) (valid.in_range b h old) ∙ there',
            made',
          )
    ];
    in_range = λ b h e. elim (by_address b h e) [
      | inl (same, new) ↦ omega (arith, new, one_more)
      | inr old ↦ omega (arith, valid.in_range b h old, one_more)
    ];
    one_address = λ b b' h e e'. elim (by_address b h e) [
      | inl (same, new) ↦ elim (by_address b' h e') [
        | inl (same', new') ↦ same ∙ sym same'
        | inr old' ↦ absurd (omega (arith, valid.in_range b' h old', new))
      ]
      | inr old ↦ elim (by_address b' h e') [
        | inl (same', new') ↦ absurd (omega (arith, valid.in_range b h old, new'))
        | inr old' ↦ valid.one_address b b' h old old'
      ]
    ];
  }

-- What a call comes to: the connection that the address has; or, where it has none, an error that
-- changes nothing, if `Connection_new` rejects the text of the address, and otherwise a new connection.
abbrev pub Keeps : Memory → Bytes → Registry → Type 0
Keeps memory a r =
    ((text : Bytes) × (fd : Option ℤ) × (list : Bool) × (lookup a r.table ≡ none)
      × (c_string (a ++ 0 ∷ []) ≡ some text)
      × (Connection_new text memory.parser memory.sockfd memory.addrinfo ≡ rejected fd list)
      × (get_connection memory a r ≡ some (invalid_address, r)))
    ⊎ ((h : ℕ) × (r' : Registry) × (get_connection memory a r ≡ some (handle h, r'))
        × IsTable r'
        × (lookup a r'.table ≡ some h)
        × ((memory' : Memory) → get_connection memory' a r' ≡ some (handle h, r'))
        × ((b : Bytes) → b ≢ a → lookup b r'.table ≡ lookup b r.table))

found_again :
    (memory : Memory) (a : Bytes) (r : Registry) (h : ℕ)
    → lookup a r.table ≡ some h
    → get_connection memory a r ≡ some (handle h, r)
unfolding get_connection
found_again memory a r h e = rw (get_connection, e) refl

by_connection :
    (memory : Memory) (a text : Bytes) (r : Registry) (n : NewConnection)
    → IsTable r
    → lookup a r.table ≡ none
    → c_string (a ++ 0 ∷ []) ≡ some text
    → Connection_new text memory.parser memory.sockfd memory.addrinfo ≡ n
    → Keeps memory a r
unfolding get_connection new_connection
by_connection memory a text r (rejected fd list) valid absent e new =
    inl (text, fd, list, absent, e, new, rw (get_connection, absent, new_connection, e, new) refl)
by_connection memory a text r (created c) valid absent e new =
    let is_made : IsMade a c = (text, memory, e, new) in
    inr (
      length r.connections,
      added a c r valid absent is_made,
      rw (get_connection, absent, new_connection, e, new) refl,
      added-IsTable a c r valid absent is_made,
      there a c r valid absent is_made,
      (λ memory'.
          found_again memory' a (added a c r valid absent is_made) (length r.connections)
            (there a c r valid absent is_made)),
      elsewhere a c r valid absent is_made,
    )

-- If every handle of the table is that of a connection that `Connection_new` made of its address, and no
-- two addresses have the same one, then `get_connection` does this. Where the address is not in the table
-- and `Connection_new` rejects its text, it finds the address invalid and changes nothing. Otherwise it
-- returns the handle that the address then has in the table, of a connection made of this address; the
-- above still holds, a call with the same address returns the same handle and makes no connection, and
-- every other address has the handle it had, or none.
pub get_connection-Keeps :
    (memory : Memory) (a : Bytes) (r : Registry) → IsTable r → Keeps memory a r
get_connection-Keeps memory a r valid = elim (Option-cases (lookup a r.table)) [
  | inl absent ↦
      let (text, e) = c_string_total a in
      by_connection memory a text r
        (Connection_new text memory.parser memory.sockfd memory.addrinfo) valid absent e refl
  | inr (h, e) ↦ inr (
    h,
    r,
    found_again memory a r h e,
    valid,
    e,
    (λ memory'. found_again memory' a r h e),
    (λ b ne. refl),
  )
]
