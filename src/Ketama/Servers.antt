-- ===== src/Ketama/Servers.antt =====
-- The list of servers that `Ketama_add_server` fills and `Ketama_get_server_address` reads.
use libredis.Base.{
  ℕ, ◌+◌, ◌*◌, ◌%◌, ◌^◌, ◌≤◌, ◌<◌, ◌≡◌, inl, inr, refl, ap, true, Option, none, some, List, [], ◌∷◌,
  ◌++◌, Bytes, arith, length, length-append, take, get_elem?-last, get_elem?-of_append, leb,
  if◌then◌else◌, Bool-cases,
}
use libredis.Base.Int.{ℤ, pos}
use libredis.Base.Decimal.{print_long}
use libredis.Ketama.{
  ServerInfo, Ketama, server_list, numservers, max_addr, server_entry, Ketama_add_server,
  Ketama_get_server_address,
}

-- The servers fit their array, which has room once it is there.
pub record IsServerList (k : Ketama) : Type 0 where
  pub fits : numservers k ≤ k.maxservers
  pub has_room : (l : List ServerInfo) → k.servers ≡ some l → 1 ≤ k.maxservers

abbrev pub weights : List ServerInfo → ℕ
weights [] = 0
weights (s ∷ ss) = s.memory + weights ss

weights-append : (xs ys : List ServerInfo) → weights (xs ++ ys) ≡ weights xs + weights ys
weights-append [] ys = omega arith
weights-append (x ∷ xs) ys = let later = weights-append xs ys in omega (arith, later)

-- `after` has one server more than `k`, with the next ordinal.
pub record Registered (k : Ketama) (addr : Bytes) (port : ℤ) (weight : ℕ) (after : Ketama)
    : Type 0 where
  pub list : IsServerList after
  pub one_more : numservers after ≡ numservers k + 1
  pub its_address :
      Ketama_get_server_address after (pos (numservers k))
      ≡ take max_addr (addr ++ b':' ∷ print_long port)
  pub same_addresses :
      (n : ℕ)
      → n < numservers k
      → Ketama_get_server_address after (pos n) ≡ Ketama_get_server_address k (pos n)
  pub weighed :
      k.memory ≡ weights (server_list k)
      → k.memory + weight < 2 ^ 64
      → after.memory ≡ weights (server_list after)

small_mod : (a : ℕ) → a < 2 ^ 32 → a % 2 ^ 32 ≡ a
small_mod a h = omega arith

double-small : (n room : ℕ) → leb room n ≡ true → n < 2 ^ 30 → room * 2 < 2 ^ 32
double-small n room full h = let le : room ≤ n = ground arith in omega arith

-- The room after the new server
enough :
    (n room : ℕ)
    → n ≤ room
    → 1 ≤ room
    → n < 2 ^ 30
    → n + 1 ≤ (if leb room n then (room * 2) % 2 ^ 32 else room)
enough n room fits some_room h = elim (Bool-cases (leb room n)) [
  | inl full ↦ rw (full, small_mod (room * 2) (double-small n room full h)) (omega arith)
  | inr free ↦ rw free (ground arith)
]

-- The room before it, one at first
abbrev room : Option (List ServerInfo) → ℕ → ℕ
room o max = elim o as (λ _. ℕ) [ none ↦ 1 | some l ↦ max ]

room-fits :
    (o : Option (List ServerInfo)) (max : ℕ)
    → length (elim o [ none ↦ [] | some l ↦ l ]) ≤ max
    → ((l : List ServerInfo) → o ≡ some l → 1 ≤ max)
    → (length (elim o [ none ↦ [] | some l ↦ l ]) ≤ room o max) × (1 ≤ room o max)
room-fits none max h one = (omega arith, omega arith)
room-fits (some l) max h one = (h, one l refl)

-- The address of an entry, the empty one of none
abbrev text_of : Option ServerInfo → Bytes
text_of o = elim o [ none ↦ [] | some s ↦ s.addr ]

module _ (k : Ketama) (addr : Bytes) (port : ℤ) (weight : ℕ) (valid : IsServerList k)
    (few : numservers k < 2 ^ 30) where
  after_fits : numservers k + 1 ≤ (Ketama_add_server k addr port weight).maxservers
  unfolding Ketama_add_server
  after_fits =
      let (fits, one) = room-fits k.servers k.maxservers valid.fits valid.has_room in
      enough (numservers k) (room k.servers k.maxservers) fits one few

  one_more : numservers (Ketama_add_server k addr port weight) ≡ numservers k + 1
  unfolding Ketama_add_server
  one_more = length-append (server_list k) (server_entry addr port weight ∷ [])

  -- On a list that fits its array (of one entry at least, once it is there) and has fewer than 2^30
  -- servers, `Ketama_add_server` keeps the list within its array, gives the new server the next
  -- ordinal, at which its address (cut to 254 bytes) is read back, leaves the address of every
  -- earlier ordinal as it was, and keeps the memory the sum of the weights, where it still fits 64 bits.
  pub add_server-Registered : Registered k addr port weight (Ketama_add_server k addr port weight)
  unfolding Ketama_add_server Ketama_get_server_address
  add_server-Registered = record {
    list = record {
      fits = omega (arith, one_more, after_fits);
      has_room = λ l e. omega (arith, after_fits);
    };
    one_more = one_more;
    its_address = ap text_of (get_elem?-last (server_list k) (server_entry addr port weight));
    same_addresses = λ n h.
        ap text_of (get_elem?-of_append n (server_list k) (server_entry addr port weight ∷ []) h);
    weighed = λ same fits.
        omega
          (arith, same, fits, weights-append (server_list k) (server_entry addr port weight ∷ []));
  }
