-- ===== src/Connection/Split.antt =====
-- What `Connection_new` takes from the text of an address.
use libredis.Base.{
  ℕ, suc, ◌+◌, ◌<◌, ◌≡◌, refl, ap, ◌∙◌, none, some, [], ◌∷◌, ◌++◌, Bytes, arith, take, drop, length,
  take-append, take-all, lt→ltb, ltb-ge,
}
use libredis.Connection.Address.{find_colon, split_address, addr_size, serv_size, default_port}

find_colon-append :
    (host port : Bytes)
    → find_colon host ≡ none
    → find_colon (host ++ b':' ∷ port) ≡ some (length host)
unfolding find_colon
find_colon-append [] port e = refl
find_colon-append (c ∷ cs) port e = ground (arith, find_colon-append cs port)

drop-after : (host port : Bytes) → drop (length host + 1) (host ++ b':' ∷ port) ≡ port
drop-after [] port = refl
drop-after (c ∷ cs) port =
    ap (λ (k : ℕ). drop k (c ∷ (cs ++ b':' ∷ port)))
      (let e : suc (length cs) + 1 ≡ suc (length cs + 1) = omega arith in e)
    ∙ drop-after cs port

-- An address "host:port" whose host has no colon and less than 255 bytes, and whose port has less
-- than 20, is split into exactly these two.
pub split_address-host_port :
    (host port : Bytes)
    → find_colon host ≡ none
    → length host < addr_size
    → length port < serv_size
    → split_address (host ++ b':' ∷ port) ≡ some (host, port)
unfolding split_address
split_address-host_port host port e h p =
    let rest = drop-after host port in
    rw
      (
        split_address,
        find_colon-append host port e,
        ltb-ge 255 (length host + 1) (omega arith),
        rest,
        ltb-ge 20 (length port) (omega arith),
      )
      (ap some (
        ap (λ (l : Bytes). (l, take 19 port)) (take-append host (b':' ∷ port))
        ∙ ap (λ (l : Bytes). (host, l)) (take-all 19 port (omega arith))))

-- An address without a colon gets the port 6379. It is kept whole below 255 bytes and refused above;
-- with 255 bytes it is accepted, but its last byte is lost.
pub split_address-no_colon :
    (text : Bytes)
    → find_colon text ≡ none
    → (length text < addr_size → split_address text ≡ some (text, default_port))
      × (length text ≡ addr_size → split_address text ≡ some (take 254 text, default_port))
      × (addr_size < length text → split_address text ≡ none)
unfolding split_address
split_address-no_colon text e = (
  (λ h.
      rw (split_address, e, ltb-ge addr_size (length text) (omega arith))
        (ap (λ (l : Bytes). some (l, default_port)) (take-all 254 text (omega arith)))),
  (λ h. rw (split_address, e, ltb-ge addr_size (length text) (omega arith)) refl),
  (λ h. rw (split_address, e, lt→ltb _ _ h) refl),
)
