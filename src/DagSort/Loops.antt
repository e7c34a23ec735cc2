-- ===== src/DagSort/Loops.antt =====
-- The second half of `proxy_groups_dag_sort`, which reports a loop: what it returns, and that its
-- rounds are enough.
use clash_rs.Prelude.{
  ℕ, zero, suc, ◌<◌, Option, none, some, List, [], ◌∷◌, ◌≡◌, refl, sym, ap, ◌∙◌, length, is_some,
  true, arith,
}
use clash_rs.Prelude.Text.{Text}
use clash_rs.Prelude.Map
use clash_rs.Prelude.Map.{get-insert, length-insert, length-remove}
use clash_rs.Prelude.Outcome.{Outcome, ok-injective, ok, err, panic, ◌>>=◌}
use clash_rs.DagSort.Pops.{some_of}
use clash_rs.DagSort.{
  Group, Node, Graph, duplicate, out_of_fuel, LoopError, decrement, found, count_edge, count_edges,
  edges_from, count_all, last_names, drop_parents, unwind_round, unwind, report, loop_error,
}

-- The outcome is no error.
abbrev NoError {ℓ} : {A : Type ℓ} → Outcome LoopError A → Type 0
NoError (ok a) = Unit
NoError (err e) = ⊥
NoError panic = Unit

NoError-bind {ℓ κ} :
    {A : Type ℓ} {B : Type κ} (o : Outcome LoopError A) (k : A → Outcome LoopError B)
    → NoError o
    → ((a : A) → o ≡ ok a → NoError (k a))
    → NoError (o >>= k)
NoError-bind (ok a) k h next = next a refl
NoError-bind (err e) k h next = absurd h
NoError-bind panic k h next = tt

found-NoError : (o : Option Node) → NoError (found o)
found-NoError none = tt
found-NoError (some nd) = tt

count_edges-NoError :
    (name : Text) (ps : List Text) (graph : Graph) → NoError (count_edges name ps graph)
count_edges-NoError name [] graph = tt
count_edges-NoError name (p ∷ ps) graph =
    NoError-bind (count_edge name graph p) (λ g. count_edges name ps g) edge
      (λ g h. count_edges-NoError name ps g)
  where
    edge : NoError (count_edge name graph p)
    edge = NoError-bind (found (Map.get graph name)) _ (found-NoError (Map.get graph name)) (λ nd h.
        NoError-bind (found (Map.get (Map.insert graph name _) p)) _
          (found-NoError (Map.get (Map.insert graph name _) p)) (λ to h'. tt))

count_all-NoError : (names : List Text) (graph : Graph) → NoError (count_all names graph)
count_all-NoError [] graph = tt
count_all-NoError (name ∷ names) graph =
    NoError-bind (found (Map.get graph name)) _ (found-NoError (Map.get graph name)) (λ nd h.
      NoError-bind (count_edges name (edges_from nd.proto) graph) _
        (count_edges-NoError name (edges_from nd.proto) graph) (λ g h'. count_all-NoError names g))

-- A bind that succeeds
bind-ok {ℓ κ} :
    {A : Type ℓ} {B : Type κ} (o : Outcome LoopError A) (k : A → Outcome LoopError B) (b : B)
    → (o >>= k) ≡ ok b
    → (a : A) × (o ≡ ok a) × (k a ≡ ok b)
bind-ok (ok a) k b h = (a, refl, h)
bind-ok (err e) k b h = absurd (ground (arith, h))
bind-ok panic k b h = absurd (ground (arith, h))

found-some : (o : Option Node) (nd : Node) → found o ≡ ok nd → o ≡ some nd
found-some none nd h = absurd (ground (arith, h))
found-some (some x) nd h = ap some (ok-injective h)

drop_parents-NoError : (ps : List Text) (s : Graph × List Text) → NoError (drop_parents ps s)
drop_parents-NoError [] s = tt
drop_parents-NoError (p ∷ ps) (graph, queue) =
    NoError-bind (found (Map.get graph p)) _ (found-NoError (Map.get graph p))
      (λ nd h. drop_parents-NoError ps _)

-- No node goes.
drop_parents-length :
    (ps : List Text) (graph : Graph) (queue : List Text) (t : Graph × List Text)
    → drop_parents ps (graph, queue) ≡ ok t
    → length t.0 ≡ length graph
drop_parents-length [] graph queue t h = ap (λ x. length x.0) (sym (ok-injective h))
drop_parents-length (p ∷ ps) graph queue t h =
    let (nd, at, rest) = bind-ok (found (Map.get graph p)) _ t h in
    drop_parents-length ps _ _ t rest
    ∙ length-insert graph p _ nd (found-some (Map.get graph p) nd at)

drop_parents-keeps :
    (q : Text) (ps : List Text) (graph : Graph) (queue : List Text) (t : Graph × List Text)
    → drop_parents ps (graph, queue) ≡ ok t
    → is_some (Map.get graph q) ≡ true
    → is_some (Map.get t.0 q) ≡ true
drop_parents-keeps q [] graph queue t h here =
    ap (λ x. is_some (Map.get x.0 q)) (sym (ok-injective h)) ∙ here
drop_parents-keeps q (p ∷ ps) graph queue t h here =
    let (nd, at, rest) = bind-ok (found (Map.get graph p)) _ t h in
    let nd' : Node = record nd { outdegree = decrement nd.outdegree } in
    let here' : is_some (Map.get (Map.insert graph p nd') q) ≡ true =
      ground (arith, get-insert graph p nd' q, here) in
    drop_parents-keeps q ps _ _ t rest here'

unwind_round-length :
    (name : Text) (queue : List Text) (graph : Graph) (t : Graph × List Text)
    → unwind_round name queue graph ≡ ok t
    → length t.0 < length graph
unwind_round-length name queue graph t h =
    let (nd, at, more) = bind-ok (found (Map.get graph name)) _ t h in
    let (u, dropped, last) = bind-ok (drop_parents nd.from (graph, queue)) _ t more in
    let here : is_some (Map.get graph name) ≡ true =
      ap is_some (found-some (Map.get graph name) nd at) in
    let still = drop_parents-keeps name nd.from graph queue u dropped here in
    let (nd', at') = some_of (Map.get u.0 name) still in
    let removed : length t.0 ≡ length (Map.remove u.0 name) =
      ap (λ x. length x.0) (sym (ok-injective last)) in
    omega (
      arith,
      removed,
      length-remove u.0 name nd' at',
      drop_parents-length nd.from graph queue u dropped,
    )

-- Each round takes a node out of the graph, so that a round for each node is enough.
unwind-NoError :
    (fuel : ℕ) (queue : List Text) (graph : Graph)
    → length graph < fuel
    → NoError (unwind fuel queue graph)
unfolding unwind
unwind-NoError zero [] graph h = tt
unwind-NoError (suc fuel) [] graph h = tt
unwind-NoError zero (name ∷ queue) graph h = absurd (omega (arith, h))
unwind-NoError (suc fuel) (name ∷ queue) graph h =
    NoError-bind (unwind_round name queue graph) _ round (λ t e.
      unwind-NoError fuel t.1 t.0 (omega (arith, h, unwind_round-length name queue graph t e)))
  where
    round : NoError (unwind_round name queue graph)
    round =
        NoError-bind (found (Map.get graph name)) _ (found-NoError (Map.get graph name)) (λ nd e.
          NoError-bind (drop_parents nd.from (graph, queue)) _
            (drop_parents-NoError nd.from (graph, queue)) (λ t e'. tt))

module _ (iter : Graph → List Text) where
  report-ok : (o : Outcome LoopError Graph) (gs : List Group) → report iter o ≡ ok gs → ⊥
  report-ok (ok g) gs h = ground (arith, h)
  report-ok (err e) gs h = ground (arith, h)
  report-ok panic gs h = ground (arith, h)

  report-duplicate :
      (o : Outcome LoopError Graph) (n : Text) → report iter o ≡ err (duplicate n) → ⊥
  report-duplicate (ok g) n h = ground (arith, h)
  report-duplicate (err e) n h = ground (arith, h)
  report-duplicate panic n h = ground (arith, h)

  report-fuel : (o : Outcome LoopError Graph) → NoError o → report iter o ≡ err out_of_fuel → ⊥
  report-fuel (ok g) n h = ground (arith, h)
  report-fuel (err e) n h = n
  report-fuel panic n h = ground (arith, h)

  pub loop_error-ok : (graph : Graph) (gs : List Group) → loop_error iter graph ≡ ok gs → ⊥
  unfolding loop_error
  loop_error-ok graph gs h = report-ok _ gs h

  pub loop_error-duplicate :
      (graph : Graph) (n : Text) → loop_error iter graph ≡ err (duplicate n) → ⊥
  unfolding loop_error
  loop_error-duplicate graph n h = report-duplicate _ n h

  -- The rounds of the second work list are enough.
  pub loop_error-fuel : (graph : Graph) → loop_error iter graph ≡ err out_of_fuel → ⊥
  unfolding loop_error
  loop_error-fuel graph h =
      report-fuel
        (do
          counted ← count_all (iter graph) graph
          unwind (suc (length counted)) (last_names counted (iter counted)) counted)
        (NoError-bind (count_all (iter graph) graph) _ (count_all-NoError (iter graph) graph)
          (λ g e. unwind-NoError (suc (length g)) (last_names g (iter g)) g (omega arith)))
        h
