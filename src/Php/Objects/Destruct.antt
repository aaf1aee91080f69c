-- ===== src/Php/Objects/Destruct.antt =====
-- `__destruct` of an object of the PHP extension, and what comes after it.
use libredis.Base.{
  ℕ, suc, ◌≤◌, ◌<◌, ◌≡◌, ◌≢◌, refl, ap, ◌∙◌, Bool, true, false, Option, none, some, List, arith,
  length, length-set, get_elem?, get_elem?-set, get_elem?-set_other, get_elem?-some-lt, set, ◌>>=◌,
}
use libredis.Php.Objects.{Class, deref, destruct, method}
use libredis.Php.Objects.Counts.{one_if, one_of, live_at-le, count, count-at, count-set}
use libredis.Php.Objects.Owned.{
  IsOwned, >>=-eq-some, owned-there, destroyed, destroyed-IsOwned, destruct-runs, destruct-again,
}

-- Two objects have two addresses.
other_address :
    (o i h j : ℕ) (hs : List ℕ)
    → get_elem? hs o ≡ some (suc h)
    → get_elem? hs i ≡ some (suc j)
    → i ≢ o
    → count (suc h) hs ≤ 1
    → j ≢ h
other_address o i h j hs at at' ne le same =
    let there : get_elem? (set hs o 0) i ≡ some (suc h) =
      get_elem?-set_other hs o i 0 ne ∙ at' ∙ ap (λ (n : ℕ). some (suc n)) same in
    let self : one_if (suc h) (suc h) ≡ 1 = ground arith in
    let null : one_if 0 (suc h) ≡ 0 = ground arith in
    omega (
      arith,
      count-at (suc h) i (set hs o 0) there,
      count-set (suc h) 0 (suc h) o hs at,
      self,
      null,
    )

module _ {T : Type 0} where
  deref-other :
      (k j : ℕ) (x : Option T) (m : List (Option T))
      → j ≢ k
      → deref (suc j) (set m k x) ≡ deref (suc j) m
  unfolding deref
  deref-other k j x m ne =
      ap (λ o. o >>= λ (cell : Option T). cell) (get_elem?-set_other m k j x ne)

  deref-cleared :
      (k : ℕ) (m : List (Option T)) {x : T}
      → deref (suc k) m ≡ some x
      → deref (suc k) (set m k none) ≡ none
  unfolding deref
  deref-cleared k m e =
      let (cell, at, there) = >>=-eq-some (get_elem? m k) _ e in
      ap (λ o. o >>= λ (cell : Option T). cell)
        (get_elem?-set {A = Option T} m k none (get_elem?-some-lt m k at))

  deref-in_range : (k : ℕ) (m : List (Option T)) {x : T} → deref (suc k) m ≡ some x → k < length m
  unfolding deref
  deref-in_range k m e =
      let (cell, at, there) = >>=-eq-some (get_elem? m k) _ e in
      get_elem?-some-lt {A = Option T} m k at

  method-null :
      {R : Type 0} (f : T → Option (R × T)) (o : ℕ) (c : Class T)
      → get_elem? c.handles o ≡ some 0
      → method f o c ≡ none
  unfolding method deref
  method-null f o c at = rw at refl

  -- What is so after the `__destruct` of object `o`, which stood for the C object at `k + 1`
  pub record HasEnded (o k : ℕ) (c after : Class T) : Type 0 where
    pub owned : IsOwned after
    pub gone : deref (suc k) after.memory ≡ none
    pub freed_once : count (suc k) after.freed ≡ 1
    pub off_table : count (suc k) after.table ≡ 0
    pub others :
        (i j : ℕ)
        → i ≢ o
        → get_elem? c.handles i ≡ some (suc j)
        → (get_elem? after.handles i ≡ some (suc j))
          × (deref (suc j) after.memory ≡ deref (suc j) c.memory)
    pub again : (destruct false o after ≡ none) × (destruct true o after ≡ some after)

  -- From owned objects, `__destruct` of an object that has not been destroyed yet always returns: its C object
  -- is freed, once, and is off the table, and every other object still has its own, with the
  -- same contents. Afterwards each method of the object is undefined (it uses NULL), and so is a
  -- second `__destruct` of a batch or a ketama; that of an executor changes nothing.
  pub destruct-ends :
      {R : Type 0} (f : T → Option (R × T)) (checks : Bool) (o k : ℕ) (c : Class T)
      → IsOwned c
      → get_elem? c.handles o ≡ some (suc k)
      → (after : Class T) × (destruct checks o c ≡ some after)
        × HasEnded o k c after
        × (method f o after ≡ none)
  destruct-ends f checks o k c v at =
      let (x, there) = owned-there o k c v at in
      let owned = destroyed-IsOwned o k x c there at v in
      let null : get_elem? (set c.handles o 0) o ≡ some 0 =
        get_elem?-set c.handles o 0 (get_elem?-some-lt c.handles o at) in
      let gone : deref (suc k) (set c.memory k none) ≡ none = deref-cleared k c.memory there in
      let again = destruct-again o (destroyed o k c) null owned in
      (
        destroyed o k c,
        destruct-runs checks o k x c there at,
        record {
          owned = owned;
          gone = gone;
          freed_once = omega (
            arith,
            ap one_of gone,
            owned.kept.freed_once (suc k) (omega arith) (
                omega (
                  arith,
                  length-set {A = Option T} c.memory k none,
                  deref-in_range k c.memory there,
                )),
          );
          off_table = owned.kept.in_table (suc k) ∙ ap one_of gone;
          others = λ i j ne at'. (
            get_elem?-set_other c.handles o i 0 ne ∙ at',
            deref-other k j none c.memory (
                other_address o i k j c.handles at at' ne
                  (omega (arith, v.one_owner (suc k) (omega arith), live_at-le (suc k) c.memory))),
          );
          again = (again.1, again.0);
        },
        method-null f o (destroyed o k c) null,
      )
