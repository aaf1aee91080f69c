-- ===== src/Php/Objects/Owned.antt =====
-- Every object of a class that is there stands once in its table, and belongs to one PHP object at most.
use libredis.Base.{
  ℕ, zero, suc, ◌+◌, ◌≤◌, ◌<◌, ◌≡◌, inl, inr, refl, sym, ap, ◌∙◌, Bool, true, false, Option, none,
  some, List, [], ◌∷◌, ◌++◌, arith, length, length-append, length-set, get_elem?, set, leb, ◌>>=◌,
  Bool-cases,
}
use mathlib.Core.Path.{subst}
use libredis.Php.Objects.{
  Class, no_objects, hash_update, hash_del, deref, write_at, T_free, create, destruct, method,
}
use libredis.Php.Objects.Counts.{
  one_if, count, live_at, count-append, count-set, count-at, hash_update-new, hash_del-absent,
  count-hash_del, live_at-beyond, live_at-append, live_at-write, live_at-clear, live_at-there,
  live_at-some, live_at-null,
}

once_more :
    (j n f l l' : ℕ)
    → 1 ≤ j
    → j ≤ n + 1
    → l' ≡ l + one_if (suc n) j
    → (j ≤ n → f + l ≡ 1)
    → (n < j → f ≡ 0)
    → (n < j → l ≡ 0)
    → f + l' ≡ 1
once_more j n f l l' le le' e old new absent = elim (Bool-cases (leb j n)) [
  | inl yes_old ↦ ground (arith, old)
  | inr is_new ↦ ground (arith, new, absent)
]

nothing_there : (T : Type 0) (h : ℕ) → 0 ≡ live_at {T = T} h []
unfolding deref
nothing_there T zero = refl
nothing_there T (suc k) = refl

-- A step that succeeds has a first part that does.
pub >>=-eq-some {ℓ κ} :
    {A : Type ℓ} {B : Type κ} (m : Option A) (f : A → Option B) {b : B}
    → (m >>= f) ≡ some b
    → (a : A) × (m ≡ some a) × (f a ≡ some b)
>>=-eq-some none f h = ground (arith, h)
>>=-eq-some (some a) f h = (a, refl, h)

set-same : (xs : List ℕ) (o h : ℕ) → get_elem? xs o ≡ some h → set xs o h ≡ xs
set-same [] o h e = refl
set-same (x ∷ xs) zero h e = ground (arith, e)
set-same (x ∷ xs) (suc o) h e = ap (λ (l : List ℕ). x ∷ l) (set-same xs o h e)

module _ {T : Type 0} where
  -- The table holds each object that is there once, and every address that was ever given out is there or has
  -- been freed, once.
  pub record IsKept (c : Class T) : Type 0 where
    pub in_table : (h : ℕ) → count h c.table ≡ live_at h c.memory
    pub freed_once :
        (h : ℕ) → 1 ≤ h → h ≤ length c.memory → count h c.freed + live_at h c.memory ≡ 1
    pub not_made : (h : ℕ) → length c.memory < h → count h c.freed ≡ 0

  -- One PHP object at most has the address of an object, and it is there.
  pub record IsOwned (c : Class T) : Type 0 where
    pub kept : IsKept c
    pub one_owner : (h : ℕ) → 1 ≤ h → count h c.handles ≤ live_at h c.memory

  pub no_objects-IsOwned : IsOwned (no_objects T)
  no_objects-IsOwned = record {
    kept = record {
      in_table = nothing_there T;
      freed_once = λ h le le'. absurd (omega (arith, le, le'));
      not_made = λ h lt. refl;
    };
    one_owner = λ h le. omega arith;
  }

  pub create-IsOwned : (x : T) (c : Class T) → IsOwned c → IsOwned (create x c)
  unfolding create
  create-IsOwned x c v =
      let h = suc (length c.memory) in
      let entry : hash_update h c.table ≡ c.table ++ h ∷ [] =
        hash_update-new h c.table (v.kept.in_table h ∙ live_at-beyond h c.memory (omega arith)) in
      record {
        kept = record {
          in_table = λ j.
              ap (count j) entry
              ∙ omega
                  (arith, count-append j h c.table, v.kept.in_table j, live_at-append j x c.memory);
          freed_once = λ j le le'.
              once_more j (length c.memory) (count j c.freed) (live_at j c.memory)
                (live_at j (c.memory ++ some x ∷ [])) le
                (omega (arith, le', length-append c.memory (some x ∷ [])))
                (live_at-append j x c.memory) (v.kept.freed_once j le) (v.kept.not_made j)
                (live_at-beyond j c.memory);
          not_made =
              λ j lt. v.kept.not_made j (omega (arith, lt, length-append c.memory (some x ∷ [])));
        };
        one_owner = λ j le.
            omega
              (arith, count-append j h c.handles, v.one_owner j le, live_at-append j x c.memory);
      }

  -- Where the same objects are there, whatever they are
  pub same_live-IsOwned :
      (m : List (Option T)) (c : Class T)
      → ((h : ℕ) → live_at h m ≡ live_at h c.memory)
      → length m ≡ length c.memory
      → IsOwned c
      → IsOwned (record c { memory = m })
  same_live-IsOwned m c same len v = record {
    kept = record {
      in_table = λ h. v.kept.in_table h ∙ sym (same h);
      freed_once = λ h le le'.
          ap (λ (n : ℕ). count h c.freed + n) (same h)
          ∙ v.kept.freed_once h le (omega (arith, le', len));
      not_made = λ h lt. v.kept.not_made h (omega (arith, lt, len));
    };
    one_owner = λ h le. omega (arith, v.one_owner h le, same h);
  }

  -- The object at `suc k` is freed and taken off the table.
  abbrev pub removed : ℕ → Class T → Class T
  removed k c = record c {
    memory = set c.memory k none;
    table = hash_del (suc k) c.table;
    freed = suc k ∷ c.freed;
  }

  pub removed-IsKept :
      (k : ℕ) (x : T) (c : Class T)
      → deref (suc k) c.memory ≡ some x
      → IsKept c
      → IsKept (removed k c)
  removed-IsKept k x c e v =
      let there : 1 ≤ count (suc k) c.table =
        omega (arith, v.in_table (suc k), live_at-some (suc k) x c.memory e) in
      record {
        in_table = λ h. omega (
          arith,
          count-hash_del h (suc k) c.table there,
          v.in_table h,
          live_at-clear h k x c.memory e,
        );
        freed_once = λ h le le'.
            let old =
              v.freed_once h le (omega (arith, le', length-set {A = Option T} c.memory k none)) in
            omega (arith, old, live_at-clear h k x c.memory e);
        not_made = λ h lt. omega (
          arith,
          live_at-clear h k x c.memory e,
          live_at-beyond h c.memory (omega (arith, lt, length-set {A = Option T} c.memory k none)),
          v.not_made h (omega (arith, lt, length-set {A = Option T} c.memory k none)),
        );
      }

  -- The object of a PHP object that has not been destroyed
  pub owned-there :
      (o k : ℕ) (c : Class T)
      → IsOwned c
      → get_elem? c.handles o ≡ some (suc k)
      → (x : T) × (deref (suc k) c.memory ≡ some x)
  owned-there o k c v e =
      live_at-there (suc k) c.memory
        (omega (arith, count-at (suc k) o c.handles e, v.one_owner (suc k) (omega arith)))

  -- What `__destruct` leaves
  abbrev pub destroyed : ℕ → ℕ → Class T → Class T
  destroyed o k c = record (removed k c) { handles = set c.handles o 0 }

  pub destroyed-IsOwned :
      (o k : ℕ) (x : T) (c : Class T)
      → deref (suc k) c.memory ≡ some x
      → get_elem? c.handles o ≡ some (suc k)
      → IsOwned c
      → IsOwned (destroyed o k c)
  destroyed-IsOwned o k x c e at v =
      let kept = removed-IsKept k x c e v.kept in
      record {
        kept = record {
          in_table = kept.in_table;
          freed_once = kept.freed_once;
          not_made = kept.not_made;
        };
        one_owner = λ h le.
            let zero_not : one_if 0 h ≡ 0 = ground (arith, le) in
            omega (
              arith,
              count-set h 0 (suc k) o c.handles at,
              v.one_owner h le,
              live_at-clear h k x c.memory e,
              zero_not,
            );
      }

  pub destruct-runs :
      (checks : Bool) (o k : ℕ) (x : T) (c : Class T)
      → deref (suc k) c.memory ≡ some x
      → get_elem? c.handles o ≡ some (suc k)
      → destruct checks o c ≡ some (destroyed o k c)
  unfolding destruct T_free
  destruct-runs checks o k x c e at = rw at (rw e refl)

  pub destruct-again :
      (o : ℕ) (c : Class T)
      → get_elem? c.handles o ≡ some 0
      → IsOwned c
      → (destruct true o c ≡ some c) × (destruct false o c ≡ none)
  unfolding destruct T_free
  destruct-again o c at v =
      let same : hash_del 0 c.table ≡ c.table =
        hash_del-absent 0 c.table (v.kept.in_table 0 ∙ live_at-null c.memory) in
      let handles : set c.handles o 0 ≡ c.handles = set-same c.handles o 0 at in
      (rw at (rw (same, handles) refl), rw at refl)

  by_handle :
      (checks : Bool) (o h : ℕ) (c c' : Class T)
      → get_elem? c.handles o ≡ some h
      → destruct checks o c ≡ some c'
      → IsOwned c
      → IsOwned c'
  by_handle true o zero c c' at run v =
      let same : c ≡ c' = cc ((destruct-again o c at v).0, run) in subst IsOwned same v
  by_handle false o zero c c' at run v = cc ((destruct-again o c at v).1, run)
  by_handle checks o (suc k) c c' at run v =
      let (x, e) = owned-there o k c v at in
      let same : destroyed o k c ≡ c' = cc (destruct-runs checks o k x c e at, run) in
      subst IsOwned same (destroyed-IsOwned o k x c e at v)

  abbrev pub written : ℕ → T → Class T → Class T
  written h y c = record c { memory = write_at h (some y) c.memory }

  pub written-IsOwned :
      (h : ℕ) (x y : T) (c : Class T)
      → deref h c.memory ≡ some x
      → IsOwned c
      → IsOwned (written h y c)
  written-IsOwned zero x y c e v = v
  written-IsOwned (suc k) x y c e v =
      same_live-IsOwned (set c.memory k (some y)) c (λ h. live_at-write h k x y c.memory e)
        (length-set c.memory k (some y)) v

  -- `__destruct` and the methods, where they run, keep the objects owned.
  pub destruct-IsOwned :
      (checks : Bool) (o : ℕ) (c c' : Class T)
      → destruct checks o c ≡ some c'
      → IsOwned c
      → IsOwned c'
  unfolding destruct
  destruct-IsOwned checks o c c' run v =
      let (h, at, next) = >>=-eq-some (get_elem? c.handles o) _ run in
      by_handle checks o h c c' at run v

  pub method-IsOwned :
      {R : Type 0} (f : T → Option (R × T)) (o : ℕ) (c : Class T) {r : R} {c' : Class T}
      → method f o c ≡ some (r, c')
      → IsOwned c
      → IsOwned c'
  unfolding method
  method-IsOwned f o c {c' = c'} run v =
      let (h, at, run1) = >>=-eq-some (get_elem? c.handles o) _ run in
      let (x, e, run2) = >>=-eq-some (deref h c.memory) _ run1 in
      let ((r', x'), ran, run3) = >>=-eq-some (f x) _ run2 in
      let same : written h x' c ≡ c' = cc (run3) in
      subst IsOwned same (written-IsOwned h x x' c e v)
