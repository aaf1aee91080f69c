-- ===== src/Tests/Circles.antt =====
-- The theorems on the circle of libredis/ketama.c, with an insertion sort as `qsort`.
use libredis.Base.{
  ℕ, zero, suc, ◌≤◌, ◌≡◌, inl, inr, refl, ap, ◌∙◌, none, some, List, [], ◌∷◌, Bytes, arith, length,
  get_elem?, if◌then◌else◌, leb, Bool-cases,
}
use libredis.Ketama.{Mcs, Ketama, Ketama_create_continuum}
use libredis.Ketama.Share.{share, to_float, split, round_to, quotient}
use libredis.Ketama.Search.{IsSorted}
use libredis.Ketama.Circle.{
  AllPoints, IsWeighed, HasCircle, Answers, create_continuum-HasCircle, get_server_ordinal-created,
}
use libredis.Tests.{codes}

abbrev insert : Mcs → List Mcs → List Mcs
insert p [] = p ∷ []
insert p (q ∷ qs) = let rest = insert p qs in if leb p.point q.point then p ∷ q ∷ qs else q ∷ rest

abbrev sort : List Mcs → List Mcs
sort [] = []
sort (p ∷ ps) = insert p (sort ps)

-- The points rise from `low` on.
abbrev Rises : ℕ → List Mcs → Type 0
Rises low [] = Unit {0}
Rises low (p ∷ ps) = (low ≤ p.point) × Rises p.point ps

insert-Rises :
    (low : ℕ) (p : Mcs) (qs : List Mcs) → low ≤ p.point → Rises low qs → Rises low (insert p qs)
insert-Rises low p [] h r = (h, tt)
insert-Rises low p (q ∷ qs) h r = elim (Bool-cases (leb p.point q.point)) [
  | inl le ↦ rw le (h, (let e : p.point ≤ q.point = ground arith in e, r.1))
  | inr gt ↦ rw gt (r.0, insert-Rises q.point p qs (ground arith) r.1)
]

sort-Rises : (ps : List Mcs) → Rises 0 (sort ps)
sort-Rises [] = tt
sort-Rises (p ∷ ps) = insert-Rises 0 p (sort ps) (omega arith) (sort-Rises ps)

Rises-at :
    (low : ℕ) (ps : List Mcs) (i : ℕ) (a : Mcs)
    → Rises low ps
    → get_elem? ps i ≡ some a
    → low ≤ a.point
Rises-at low [] i a r e = ground arith
Rises-at low (p ∷ ps) zero a r e = let le = r.0 in ground arith
Rises-at low (p ∷ ps) (suc i) a r e =
    let le = r.0 in let le' = Rises-at p.point ps i a r.1 e in omega arith

Rises-IsSorted : (low : ℕ) (ps : List Mcs) → Rises low ps → IsSorted ps
Rises-IsSorted low [] r i j a b h x y = ground arith
Rises-IsSorted low (p ∷ ps) r zero zero a b h x y = ground arith
Rises-IsSorted low (p ∷ ps) r zero (suc j) a b h x y =
    let le = Rises-at p.point ps j b r.1 y in ground arith
Rises-IsSorted low (p ∷ ps) r (suc i) zero a b h x y = absurd (omega arith)
Rises-IsSorted low (p ∷ ps) r (suc i) (suc j) a b h x y =
    Rises-IsSorted p.point ps r.1 i j a b (omega arith) x y

length-insert : (p : Mcs) (qs : List Mcs) → length (insert p qs) ≡ suc (length qs)
length-insert p [] = refl
length-insert p (q ∷ qs) = ground (arith, length-insert p qs)

length-sort : (ps : List Mcs) → length (sort ps) ≡ length ps
length-sort [] = refl
length-sort (p ∷ ps) = length-insert p (sort ps) ∙ ap suc (length-sort ps)

insert-AllPoints :
    (P : Mcs → Type 0) (p : Mcs) (qs : List Mcs) → P p → AllPoints P qs → AllPoints P (insert p qs)
insert-AllPoints P p [] h o = (h, tt)
insert-AllPoints P p (q ∷ qs) h o = elim (Bool-cases (leb p.point q.point)) [
  | inl le ↦ rw le (h, o)
  | inr gt ↦ rw gt (o.0, insert-AllPoints P p qs h o.1)
]

sort-AllPoints : (P : Mcs → Type 0) (ps : List Mcs) → AllPoints P ps → AllPoints P (sort ps)
sort-AllPoints P [] o = tt
sort-AllPoints P (p ∷ ps) o = insert-AllPoints P p (sort ps) o.0 (sort-AllPoints P ps o.1)

-- A digest of 16 bytes that begins with the length of the text
abbrev toy_md5 : Bytes → Bytes
toy_md5 text = length text ∷ 0 ∷ 0 ∷ 0 ∷ 1 ∷ 0 ∷ 0 ∷ 0 ∷ 2 ∷ 0 ∷ 0 ∷ 0 ∷ 3 ∷ 0 ∷ 0 ∷ 0 ∷ []

abbrev two_servers : Ketama
two_servers = record {
  numpoints = 0;
  maxservers = 2;
  memory = 2;
  continuum = none;
  servers =
      some (
        record { addr = codes "a:1"; memory = 1 } ∷ record { addr = codes "b:1"; memory = 1 } ∷ []);
}

two_servers-IsWeighed : IsWeighed two_servers
two_servers-IsWeighed = record {
  summed = refl;
  some_weight = omega arith;
  fits = omega arith;
  few = omega arith;
}

create_continuum-HasCircle_example :
    (k' : Ketama) × (Ketama_create_continuum toy_md5 sort two_servers ≡ some k')
    × HasCircle toy_md5 (λ _. refl) sort two_servers k'
create_continuum-HasCircle_example =
    create_continuum-HasCircle toy_md5 (λ _. refl) sort two_servers
      (λ ps. Rises-IsSorted 0 (sort ps) (sort-Rises ps)) length-sort sort-AllPoints refl
      (omega arith) two_servers-IsWeighed

get_server_ordinal-created_example : Answers toy_md5 (λ _. refl) sort two_servers (codes "key")
get_server_ordinal-created_example =
    get_server_ordinal-created toy_md5 (λ _. refl) sort two_servers (codes "key")
      (λ ps. Rises-IsSorted 0 (sort ps) (sort-Rises ps)) length-sort sort-AllPoints refl
      (omega arith) two_servers-IsWeighed

-- A tie goes to the even number, and a third of three servers has a share of 40.
float_down : to_float 16777217 ≡ 16777216
unfolding to_float split round_to
float_down = refl

float_up : to_float 16777219 ≡ 16777220
unfolding to_float split round_to
float_up = refl

third : share 1 3 3 ≡ 40
unfolding share to_float split round_to quotient
third = refl

two_thirds : share 2 3 2 ≡ 53
unfolding share to_float split round_to quotient
two_thirds = refl
