-- ===== src/Php/Objects/Calls/Unfreed.antt =====
-- The batches that `Connection::get` and `Connection::set` make for themselves, over the calls of a script.
use libredis.Base.{
  ℕ, suc, ◌≡◌, ◌⊎◌, inl, inr, refl, sym, ap, ◌∙◌, true, Option, none, some, List, [], ◌∷◌, Bytes,
  get_elem?, Option-cases,
}
use libredis.Batch.{Batch, Batch_write_set, Batch_write_get, Batch_new}
use libredis.Executor.{Tick, Executor_new, Executor}
use libredis.Ketama.{Mcs, Ketama}
use libredis.Connection.Write.{text}
use libredis.Php.{Zval, strings_of}
use libredis.Php.Methods.{
  Outcome, returns, fatal, State, Handler, unfreed_after, run_command, with_batch, first_reply,
  after_execute, Connection_execute_simple, Connection_set_method, Connection_get_method, set_reply,
  get_reply, Executor_execute_method,
}
use libredis.Php.Objects.{Class, deref, method}
use libredis.Php.Objects.Calls.{
  Call, create_batch, create_batch_refused, create_ketama, create_executor, destruct_batch,
  destruct_ketama, destruct_executor, batch_write, batch_set, batch_get, batch_cmd,
  batch_next_reply, ketama_add_server, ketama_get_server_ordinal, ketama_get_server_address,
  ketama_create_continuum, executor_add, executor_execute, connection_execute, connection_set,
  connection_get, Returned, value, reply, ended, Php, execute_executor, execute_batch, call, script,
  is_ended, kept, Results, on_batches, on_ketamas, on_executors, simple, with_own, outcome,
  state_of, method_add, all_there, cmd_call, create_ketama_method, create_executor_method,
  method_cmd,
}
use libredis.Php.Objects.Owned.{>>=-eq-some}

-- What a call does to the number of batches that were not freed
abbrev pub lost : Returned → ℕ → ℕ
lost (ended t) n = suc n
lost _ n = n

abbrev Loses : ℕ → Returned → ℕ → Type 0
Loses before v after = (after ≡ before) ⊎ (after ≡ lost v before)

module _ (p : Php) {a : Returned} {p' : Php} where
  batches-same :
      (r : Results (Class Batch)) → on_batches p r ≡ some (a, p') → p'.unfreed ≡ p.unfreed
  batches-same r run =
      let ((x, c), e, last) = >>=-eq-some r _ run in
      let same : record p { batches = c } ≡ p' = cc (last) in ap (λ (q : Php). q.unfreed) (sym same)

  ketamas-same :
      (r : Results (Class Ketama)) → on_ketamas p r ≡ some (a, p') → p'.unfreed ≡ p.unfreed
  ketamas-same r run =
      let ((x, c), e, last) = >>=-eq-some r _ run in
      let same : record p { ketamas = c } ≡ p' = cc (last) in ap (λ (q : Php). q.unfreed) (sym same)

  executors-same :
      (r : Results (Class Executor)) → on_executors p r ≡ some (a, p') → p'.unfreed ≡ p.unfreed
  executors-same r run =
      let ((x, c), e, last) = >>=-eq-some r _ run in
      let same : record p { executors = c } ≡ p' = cc (last) in
      ap (λ (q : Php). q.unfreed) (sym same)

  simple-same : (r : Option (Outcome × State)) → simple p r ≡ some (a, p') → p'.unfreed ≡ p.unfreed
  simple-same r run =
      let ((x, s), e, last) = >>=-eq-some r _ run in
      let same : kept p s ≡ p' = cc (last) in ap (λ (q : Php). q.unfreed) (sym same)

  cmd_call-same :
      (o : ℕ) (args : List Zval) → cmd_call o args p ≡ some (a, p') → p'.unfreed ≡ p.unfreed
  cmd_call-same o args run = elim (Option-cases (strings_of args)) [
    | inl refused ↦
        let run' : ◌≡◌ {A = Option (Returned × Php)}
            (some (ended (text "all arguments must be strings!"), p)) (some (a, p')) =
          rw (cmd_call, refused) at run in
        let same : p ≡ p' = cc (run') in ap (λ (q : Php). q.unfreed) (sym same)
    | inr (strings, e) ↦
        batches-same (method (method_cmd args) o p.batches) (rw (cmd_call, e) at run)
  ]

outcome-lost : (o : Outcome) (n : ℕ) → unfreed_after o n ≡ lost (outcome o) n
outcome-lost (returns v) n = refl
outcome-lost (fatal t) n = refl

command-lost :
    (connection : ℕ) (ticks : List Tick) (errno : Bytes) (handle : Handler) (b : Batch)
    (s s' : State) (o : Outcome)
    → run_command connection ticks errno handle b s ≡ some (o, s')
    → s'.unfreed ≡ lost (outcome o) s.unfreed
unfolding run_command
command-lost connection ticks errno handle b s s' o run =
    let (r, e, run1) =
      >>=-eq-some (Connection_execute_simple connection _ ticks (with_batch b s.world)) _ run in
    let ((o1, s1), e1, last) =
      >>=-eq-some (after_execute errno s r (λ w. first_reply _ handle (record s { world = w }))) _
        run1 in
    let last' : ◌≡◌ {A = Option (Outcome × State)}
        (some (o1, record s1 { unfreed = unfreed_after o1 s.unfreed })) (some (o, s')) =
      last in
    let same_o : o1 ≡ o = cc (last') in
    let same_s : record s1 { unfreed = unfreed_after o1 s.unfreed } ≡ s' = cc (last') in
    ap (λ (x : State). x.unfreed) (sym same_s)
    ∙ ap (λ (x : Outcome). unfreed_after x s.unfreed) same_o
    ∙ outcome-lost o s.unfreed

own-lost :
    (p : Php) {a : Returned} {p' : Php} (r : Option (Outcome × State))
    → with_own p r ≡ some (a, p')
    → ((o : Outcome) (s' : State) → r ≡ some (o, s') → s'.unfreed ≡ lost (outcome o) p.unfreed)
    → p'.unfreed ≡ lost a p.unfreed
own-lost p {a = a} {p' = p'} r run keeps =
    let ((o, s'), e, last) = >>=-eq-some r _ run in
    let last' : ◌≡◌ {A = Option (Returned × Php)}
        (some (outcome o, record (kept p s') { unfreed = s'.unfreed })) (some (a, p')) =
      last in
    let same_a : outcome o ≡ a = cc (last') in
    let same_p : record (kept p s') { unfreed = s'.unfreed } ≡ p' = cc (last') in
    ap (λ (q : Php). q.unfreed) (sym same_p)
    ∙ keeps o s' e
    ∙ ap (λ (v : Returned). lost v p.unfreed) same_a

executor-same :
    (o : ℕ) (ticks : List Tick) (errno : Bytes) (p : Php) {a : Returned} {p' : Php}
    → execute_executor o ticks errno p ≡ some (a, p')
    → p'.unfreed ≡ p.unfreed
unfolding execute_executor
executor-same o ticks errno p {p' = p'} run =
    let (h, at, run1) = >>=-eq-some (get_elem? p.executors.handles o) _ run in
    let (e, there, run2) = >>=-eq-some (deref h p.executors.memory) _ run1 in
    let (u, pairs, run3) = >>=-eq-some (all_there e.pairs p.batches.memory) _ run2 in
    let ((x, s), ran, run4) =
      >>=-eq-some (Executor_execute_method ticks errno (state_of e p)) _ run3 in
    ap (λ (o : Option (Returned × Php)). elim o as (λ _. ℕ) [ none ↦ 0 | some y ↦ y.1.unfreed ])
      (sym run4)

batch-same :
    (connection o : ℕ) (ticks : List Tick) (errno : Bytes) (p : Php) {a : Returned} {p' : Php}
    → execute_batch connection o ticks errno p ≡ some (a, p')
    → p'.unfreed ≡ p.unfreed
unfolding execute_batch
batch-same connection o ticks errno p run =
    let (h, at, run1) = >>=-eq-some (get_elem? p.batches.handles o) _ run in
    let (b, there, run2) = >>=-eq-some (deref h p.batches.memory) _ run1 in simple-same p _ run2

module _ (md5 : Bytes → Bytes) (qsort : List Mcs → List Mcs) where
  call-Loses :
      (c : Call) (p : Php) {a : Returned} {p' : Php}
      → call md5 qsort c p ≡ some (a, p')
      → Loses p.unfreed a p'.unfreed
  unfolding call Connection_set_method Connection_get_method
  call-Loses (create_batch str n) p run = inl (batches-same p _ run)
  call-Loses create_batch_refused p run = inl (
      ap (λ (o : Option (Returned × Php)). elim o as (λ _. ℕ) [ none ↦ 0 | some y ↦ y.1.unfreed ])
        (sym run))
  call-Loses create_ketama p run = inl (ketamas-same p (create_ketama_method p.ketamas) run)
  call-Loses create_executor p run = inl (executors-same p (create_executor_method p.executors) run)
  call-Loses (destruct_batch o) p run = inl (batches-same p _ run)
  call-Loses (destruct_ketama o) p run = inl (ketamas-same p _ run)
  call-Loses (destruct_executor o) p run = inl (executors-same p _ run)
  call-Loses (batch_write o str n) p run = inl (batches-same p _ run)
  call-Loses (batch_set o key x) p run = inl (batches-same p _ run)
  call-Loses (batch_get o key) p run = inl (batches-same p _ run)
  call-Loses (batch_cmd o args) p run = inl (cmd_call-same p o args run)
  call-Loses (batch_next_reply o) p run = inl (batches-same p _ run)
  call-Loses (ketama_add_server o addr port weight) p run = inl (ketamas-same p _ run)
  call-Loses (ketama_get_server_ordinal o key) p run = inl (ketamas-same p _ run)
  call-Loses (ketama_get_server_address o n) p run = inl (ketamas-same p _ run)
  call-Loses (ketama_create_continuum o) p run = inl (ketamas-same p _ run)
  call-Loses (executor_add o connection batch) p run =
      let (h, at, run1) = >>=-eq-some (get_elem? p.batches.handles batch) _ run in
      inl (executors-same p (method (method_add connection h) o p.executors) run1)
  call-Loses (executor_execute o ticks errno) p run = inl (executor-same o ticks errno p run)
  call-Loses (connection_execute connection o ticks errno) p run =
      inl (batch-same connection o ticks errno p run)
  call-Loses (connection_set connection key x ticks errno) p run = inr (
      own-lost p (Connection_set_method connection key x ticks errno (state_of Executor_new p)) run
        (λ o s' e.
          let (b, written, run1) = >>=-eq-some (Batch_write_set Batch_new key x) _ e in
          command-lost connection ticks errno set_reply b (state_of Executor_new p) s' o run1))
  call-Loses (connection_get connection key ticks errno) p run = inr (
      own-lost p (Connection_get_method connection key ticks errno (state_of Executor_new p)) run
        (λ o s' e.
          let (b, written, run1) = >>=-eq-some (Batch_write_get Batch_new key) _ e in
          command-lost connection ticks errno get_reply b (state_of Executor_new p) s' o run1))

  -- Over a script, one batch at most is lost, and only where an error ends the script.
  abbrev pub Lost : List Call → Php → Php → Type 0
  Lost cs p p' =
      (p'.unfreed ≡ p.unfreed) ⊎ ((p'.unfreed ≡ suc p.unfreed) × (is_ended md5 qsort cs p ≡ true))

  same_count : (v : Returned) (n m : ℕ) → lost v n ≡ n → Loses n v m → m ≡ n
  same_count v n m none_lost (inl same) = same
  same_count v n m none_lost (inr same) = same ∙ none_lost

  goes_on-Lost :
      (c : Call) (cs : List Call) (p p1 p' : Php)
      → p1.unfreed ≡ p.unfreed
      → is_ended md5 qsort (c ∷ cs) p ≡ is_ended md5 qsort cs p1
      → Lost cs p1 p'
      → Lost (c ∷ cs) p p'
  goes_on-Lost c cs p p1 p' same ends (inl e) = inl (e ∙ same)
  goes_on-Lost c cs p p1 p' same ends (inr (e, by_error)) = inr (e ∙ ap suc same, ends ∙ by_error)

  after_call-Lost :
      (x : Returned) (c : Call) (cs : List Call) (p p1 p' : Php)
      → call md5 qsort c p ≡ some (x, p1)
      → (elim x as (λ _. Option Php) [
        | value z ↦ script md5 qsort cs p1
        | reply r ↦ script md5 qsort cs p1
        | ended t ↦ some p1
      ])
        ≡ some p'
      → Loses p.unfreed x p1.unfreed
      → (script md5 qsort cs p1 ≡ some p' → Lost cs p1 p')
      → Lost (c ∷ cs) p p'
  unfolding is_ended
  after_call-Lost (value z) c cs p p1 p' e run loses later =
      goes_on-Lost c cs p p1 p' (same_count (value z) p.unfreed p1.unfreed refl loses)
        (rw (is_ended, e) refl) (later run)
  after_call-Lost (reply r) c cs p p1 p' e run loses later =
      goes_on-Lost c cs p p1 p' (same_count (reply r) p.unfreed p1.unfreed refl loses)
        (rw (is_ended, e) refl) (later run)
  after_call-Lost (ended t) c cs p p1 p' e run loses later =
      let same : p1 ≡ p' = cc (run) in
      let count : p'.unfreed ≡ p1.unfreed = ap (λ (q : Php). q.unfreed) (sym same) in
      elim loses [
        | inl kept_all ↦ inl (count ∙ kept_all)
        | inr one ↦ inr (count ∙ one, rw (is_ended, e) refl)
      ]

  pub script-Lost : (cs : List Call) (p p' : Php) → script md5 qsort cs p ≡ some p' → Lost cs p p'
  unfolding script
  script-Lost [] p p' run =
      let same : p ≡ p' = cc (run) in inl (ap (λ (q : Php). q.unfreed) (sym same))
  script-Lost (c ∷ cs) p p' run =
      let ((x, p1), e, run1) = >>=-eq-some (call md5 qsort c p) _ run in
      after_call-Lost x c cs p p1 p' e run1 (call-Loses c p e) (script-Lost cs p1 p')
