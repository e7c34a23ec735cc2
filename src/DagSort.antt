-- ===== src/DagSort.antt =====
-- clash-lib/src/app/outbound/utils.rs: `proxy_groups_dag_sort`, which puts the configured proxy
-- groups into an order in which each can be built, or reports a loop.
--
-- `iter` is the order in which the hash map `graph` yields its keys. The `i32` of a node is a word of
-- 32 bits with its wrap-around. The two work lists have fuel, one round for each node.
pub mod Counts
pub mod Tracks
pub mod Pops
pub mod Rounds
pub mod Build
pub mod Loops
pub mod Order
mod Examples
use clash_rs.Prelude.{
  ℕ, zero, suc, ◌+◌, ◌-◌, ◌%◌, ◌^◌, ltb, ◌==◌, Option, none, some, is_some, unwrap_or, List, [],
  ◌∷◌, ◌++◌, length, set, if◌then◌else◌,
}
use clash_rs.Prelude.Text.{Text}
use clash_rs.Prelude.Map
use clash_rs.Prelude.Map.{Map}
use clash_rs.Prelude.Outcome.{Outcome, ok, err, panic, ◌>>=◌}

-- What the sort reads of an `OutboundGroupProtocol`.
pub record Group : Type 0 where
  pub name : Text
  pub proxies : Option (List Text)

pub record Node : Type 0 where
  pub in_degree : ℕ
  pub proto : Option Group
  pub outdegree : ℕ
  pub from : List Text

-- A node as the loops before the report of a loop have it
abbrev pub fresh_node : ℕ → Option Group → Node
fresh_node in_degree proto = record {
  in_degree = in_degree;
  proto = proto;
  outdegree = 0;
  from = [];
}

abbrev pub Graph : Type 0
Graph = Map Node

pub data SortError : Type 0 where
  duplicate : Text → SortError
  loop_detected : List Text → SortError
  out_of_fuel : SortError

abbrev pub increment : ℕ → ℕ
increment n = (n + 1) % 2 ^ 32

abbrev pub decrement : ℕ → ℕ
decrement n = (n + 2 ^ 32 - 1) % 2 ^ 32

abbrev pub edges_of : Group → List Text
edges_of g = unwrap_or [] g.proxies

abbrev pub node_or_new : Option Node → Node
node_or_new none = fresh_node 1 none
node_or_new (some nd) = record nd { in_degree = increment nd.in_degree }

abbrev pub add_edge : Graph → Text → Graph
add_edge graph proxy = Map.insert graph proxy (node_or_new (Map.get graph proxy))

unfoldable pub add_edges : Graph → List Text → Graph
add_edges graph [] = graph
add_edges graph (p ∷ ps) = add_edges (add_edge graph p) ps

abbrev pub node_for : Group → Option Node → Outcome SortError Node
node_for g none = ok (fresh_node 0 (some g))
node_for g (some nd) =
    if is_some nd.proto then err (duplicate g.name) else ok (record nd { proto = some g })

abbrev pub add_node : Graph → Group → Outcome SortError Graph
add_node graph g = do nd ← node_for g (Map.get graph g.name); ok (Map.insert graph g.name nd)

unfoldable pub build : List Group → Graph → Outcome SortError Graph
unfolding add_edges
build [] graph = ok graph
build (g ∷ gs) graph = do graph ← add_node graph g; build gs (add_edges graph (edges_of g))

abbrev pub cons_free : Text → Option Node → List Text → List Text
cons_free k none ks = ks
cons_free k (some nd) ks = if nd.in_degree == 0 then k ∷ ks else ks

-- The names with no edge to them, in the order of the map.
unfoldable pub free_names : Graph → List Text → List Text
free_names graph [] = []
free_names graph (k ∷ ks) = cons_free k (Map.get graph k) (free_names graph ks)

pub record Sorting : Type 0 where
  pub graph : Graph
  pub queue : List Text
  pub index : ℕ
  pub groups : List Group

abbrev pub push_free : ℕ → Text → List Text → List Text
push_free n name queue = if n == 0 then queue ++ name ∷ [] else queue

abbrev pub drop_edge :
    Text → Option Node → Graph × List Text → Outcome SortError (Graph × List Text)
drop_edge p none (graph, queue) = panic
drop_edge p (some nd) (graph, queue) =
    let n = decrement nd.in_degree in
    ok (Map.insert graph p (record nd { in_degree = n }), push_free n p queue)

unfoldable pub drop_edges : List Text → Graph × List Text → Outcome SortError (Graph × List Text)
drop_edges [] s = ok s
drop_edges (p ∷ ps) s = do s ← drop_edge p (Map.get s.0 p) s; drop_edges ps s

-- The group of a node takes its place, from the last one on, and its edges are dropped.
abbrev pub place : Text → List Text → Node → Group → Sorting → Outcome SortError Sorting
place name queue nd g s =
    let index = suc s.index in
    if ltb (length s.groups) index then panic else (do
      (graph, queue) ←
          drop_edges (edges_of g) (Map.insert s.graph name (record nd { proto = none }), queue)
      ok (record {
        graph = Map.remove graph name;
        queue = queue;
        index = index;
        groups = set s.groups (length s.groups - index) g;
      }))

abbrev pub by_node : Text → List Text → Sorting → Option Node → Outcome SortError Sorting
by_node name queue s none = panic
by_node name queue s (some nd) = elim nd.proto [
  | none ↦ ok (record s { graph = Map.remove s.graph name; queue = queue })
  | some g ↦ place name queue nd g s
]

unfoldable pub sort_round : Text → List Text → Sorting → Outcome SortError Sorting
unfolding drop_edges
sort_round name queue s = by_node name queue s (Map.get s.graph name)

unfoldable pub sort_loop : ℕ → Sorting → Outcome SortError Sorting
unfolding sort_round
sort_loop zero s = elim s.queue [ [] ↦ ok s | name ∷ queue ↦ err out_of_fuel ]
sort_loop (suc fuel) s = elim s.queue [
  | [] ↦ ok s
  | name ∷ queue ↦ do s ← sort_round name queue s; sort_loop fuel s
]

pub data LoopError : Type 0 where
  out_of_rounds : LoopError

-- `unwrap` of a node
abbrev pub found : Option Node → Outcome LoopError Node
found none = panic
found (some nd) = ok nd

-- An edge from `name` to `proxy` is counted at the one, and noted at the other.
abbrev pub count_edge : Text → Graph → Text → Outcome LoopError Graph
count_edge name graph proxy = do
  nd ← found (Map.get graph name)
  let counted = Map.insert graph name (record nd { outdegree = increment nd.outdegree })
  to ← found (Map.get counted proxy)
  ok (Map.insert counted proxy (record to { from = to.from ++ name ∷ [] }))

abbrev pub count_edges : Text → List Text → Graph → Outcome LoopError Graph
count_edges name [] graph = ok graph
count_edges name (p ∷ ps) graph = do graph ← count_edge name graph p; count_edges name ps graph

abbrev pub edges_from : Option Group → List Text
edges_from none = []
edges_from (some g) = edges_of g

abbrev pub count_all : List Text → Graph → Outcome LoopError Graph
count_all [] graph = ok graph
count_all (name ∷ names) graph = do
  nd ← found (Map.get graph name)
  graph ← count_edges name (edges_from nd.proto) graph
  count_all names graph

abbrev pub cons_last : Text → Option Node → List Text → List Text
cons_last k none ks = ks
cons_last k (some nd) ks = if nd.outdegree == 0 then k ∷ ks else ks

-- The names with no edge from them, in the order of the map.
abbrev pub last_names : Graph → List Text → List Text
last_names graph [] = []
last_names graph (k ∷ ks) = cons_last k (Map.get graph k) (last_names graph ks)

abbrev pub drop_parents : List Text → Graph × List Text → Outcome LoopError (Graph × List Text)
drop_parents [] s = ok s
drop_parents (parent ∷ parents) (graph, queue) = do
  nd ← found (Map.get graph parent)
  let n = decrement nd.outdegree
  drop_parents parents
      (Map.insert graph parent (record nd { outdegree = n }), push_free n parent queue)

abbrev pub unwind_round : Text → List Text → Graph → Outcome LoopError (Graph × List Text)
unwind_round name queue graph = do
  nd ← found (Map.get graph name)
  (graph, queue) ← drop_parents nd.from (graph, queue)
  ok (Map.remove graph name, queue)

-- The second work list, which takes the names that lead to no loop out of the graph.
unfoldable pub unwind : ℕ → List Text → Graph → Outcome LoopError Graph
unwind fuel [] graph = ok graph
unwind zero (name ∷ queue) graph = err out_of_rounds
unwind (suc fuel) (name ∷ queue) graph = do
  (graph, queue) ← unwind_round name queue graph
  unwind fuel queue graph

abbrev pub report : (Graph → List Text) → Outcome LoopError Graph → Outcome SortError (List Group)
report iter (ok graph) = err (loop_detected (iter graph))
report iter (err e) = err out_of_fuel
report iter panic = panic

unfoldable pub loop_error : (Graph → List Text) → Graph → Outcome SortError (List Group)
unfolding unwind
loop_error iter graph = report iter (do
  counted ← count_all (iter graph) graph
  unwind (suc (length counted)) (last_names counted (iter counted)) counted)

abbrev pub sorted : (Graph → List Text) → Sorting → Outcome SortError (List Group)
sorted iter s = elim s.graph [ [] ↦ ok s.groups | node ∷ graph ↦ loop_error iter (node ∷ graph) ]

unfoldable pub proxy_groups_dag_sort :
    (Graph → List Text) → List Group → Outcome SortError (List Group)
unfolding build free_names sort_loop loop_error
proxy_groups_dag_sort iter groups = do
  graph ← build groups []
  s ←
      sort_loop (length graph) (record {
        graph = graph;
        queue = free_names graph (iter graph);
        index = 0;
        groups = groups;
      })
  sorted iter s
