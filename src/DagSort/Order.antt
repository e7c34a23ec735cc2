-- ===== src/DagSort/Order.antt =====
-- What the sort promises of clash-lib/src/app/outbound/utils.rs.
use mathlib.Core.List.{Perm}
use mathlib.Core.List.Perm
use clash_rs.Prelude.{
  ℕ, zero, suc, ◌+◌, ◌<◌, ◌≤◌, ◌^◌, true, Bool-cases, Option, none, is_some, List, List-cases, [],
  ◌∷◌, ◌++◌, ◌≡◌, ◌⊎◌, inl, inr, refl, sym, ap, subst, ◌∙◌, length, ◌==◌, if◌then◌else◌, arith,
}
use clash_rs.Prelude.Text.{Text, text_eq_iff}
use clash_rs.Prelude.Map
use clash_rs.Prelude.Outcome.{ok, err}
use clash_rs.DagSort.{
  Group, Graph, Sorting, duplicate, out_of_fuel, edges_of, free_names, sorted,
  proxy_groups_dag_sort,
}
use clash_rs.DagSort.Counts.{count, refs, group_named, Distinct, All, Ordered}
use clash_rs.DagSort.Tracks.{Tracks}
use clash_rs.DagSort.Rounds.{Inv, sort_loop-Inv}
use clash_rs.DagSort.Loops.{loop_error-ok, loop_error-duplicate, loop_error-fuel}
use clash_rs.DagSort.Build.{Shape, At-eq, build-cases, count-free_names}

-- A hash map yields each of its keys once.
abbrev pub YieldsKeys : (Graph → List Text) → Type 0
YieldsKeys iter =
    (graph : Graph) (q : Text) → count q (iter graph) ≡ (if is_some (Map.get graph q) then 1 else 0)

-- Each name that a group refers to has a rank below the group's.
abbrev pub Ranked : (Text → ℕ) → Group → Type 0
Ranked rank g = (q : Text) → 0 < count q (edges_of g) → rank q < rank g.name

no_group : (gs : List Group) → ((q : Text) → group_named q gs ≡ none) → gs ≡ []
no_group [] h = refl
no_group (g ∷ gs) h = absurd (ground (arith, h g.name, text_eq_iff g.name g.name))

append_nil : (gs : List Group) → gs ≡ gs ++ []
append_nil [] = refl
append_nil (g ∷ gs) = ap (λ hs. g ∷ hs) (append_nil gs)

length-none : (gs : List Group) → length gs ≡ 0 → gs ≡ []
length-none [] h = refl
length-none (g ∷ gs) h = absurd (omega (arith, h))

All-unit : (gs : List Group) → All {0} (λ g. Unit) gs
All-unit [] = tt
All-unit (g ∷ gs) = (tt, All-unit gs)

self_Perm : (gs : List Group) → Perm gs (gs ++ [])
self_Perm gs = subst (Perm gs) (append_nil gs) (Perm.refl gs)

get_head : (k : Text) {V : Type 0} (v : V) (m : Map.Map V) → is_some (Map.get ((k, v) ∷ m) k) ≡ true
unfolding Map.get
get_head k v m = ground (arith, text_eq_iff k k)

abbrev total : (Text → ℕ) → List Group → ℕ
total rank [] = 0
total rank (g ∷ gs) = rank g.name + total rank gs

-- A name that is referred to has a group that refers to it.
referring :
    (rank : Text → ℕ) (q : Text) (gs : List Group)
    → All (Ranked rank) gs
    → 0 < refs q gs
    → (g : Group) × (rank q < rank g.name)
      × (is_some (group_named g.name gs) ≡ true)
      × (rank g.name ≤ total rank gs)
referring rank q [] a h = absurd (omega (arith, h))
referring rank q (g ∷ gs) (a, rest) h = elim (Bool-cases (0 == count q (edges_of g))) [
  | inl nothing ↦
      let (x, up, has, bound) = referring rank q gs rest (ground (arith, h, nothing)) in
      (x, up, ground (arith, has), omega (arith, bound))
  | inr edge ↦
      (g, a q (ground (arith, edge)), ground (arith, text_eq_iff g.name g.name), omega arith)
]

module _ (rank : Text → ℕ) (all rest placed : List Group) (s : Sorting)
    (inv : Inv (Ranked rank) all rest placed s) (empty : s.queue ≡ []) where
  referred : (q : Text) → is_some (Map.get s.graph q) ≡ true → 0 < refs q rest
  referred q here = ground (arith, inv.tracks.queued q, here, ap (count q) empty)

  climb :
      (fuel : ℕ) (q : Text)
      → is_some (Map.get s.graph q) ≡ true
      → total rank rest < fuel + rank q
      → ⊥
  climb zero q here far =
      let (g, up, has, bound) = referring rank q rest inv.keeps (referred q here) in
      omega (arith, up, bound, far)
  climb (suc fuel) q here far =
      let (g, up, has, bound) = referring rank q rest inv.keeps (referred q here) in
      elim (Bool-cases (is_some (Map.get s.graph g.name))) [
        | inl yet ↦ climb fuel g.name yet (omega (arith, up, far))
        | inr gone ↦ ground (arith, has, (inv.tracks.outside g.name gone).1)
      ]

  -- With ranks, no node is left when the queue is empty.
  no_node_left : s.graph ≡ []
  no_node_left = elim (List-cases s.graph) [
    | inl e ↦ e
    | inr ((k, nd), m, e) ↦ absurd (
        climb (suc (total rank rest)) k
          (subst (λ m'. is_some (Map.get m' k) ≡ true) (sym e) (get_head k nd m)) (omega arith))
  ]

module _ (iter : Graph → List Text) (keys : YieldsKeys iter) (groups : List Group)
    (few : (q : Text) → refs q groups < 2 ^ 32) where
  start-Tracks :
      (graph : Graph)
      → Shape (λ q. refs q groups) (λ q. group_named q groups) graph
      → Tracks
          (λ q. is_some (Map.get graph q))
          (λ q. refs q groups)
          (λ q. group_named q groups)
          graph
          (free_names graph (iter graph))
  start-Tracks graph shape = record {
    inside = λ q h. elim (shape q) [ inl e ↦ e | inr (e, x) ↦ absurd (ground (arith, e, h)) ];
    outside = λ q h. elim (shape q) [ inl e ↦ absurd (ground (arith, e, h)) | inr (e, x) ↦ x ];
    queued = λ q. ground (
      arith,
      count-free_names q graph (refs q groups) (group_named q groups) (iter graph) (shape q),
      keys graph q,
    );
    small = few;
  }

  abbrev no_proto : Text → Option Group
  no_proto q = none

  All-fresh : (gs : List Group) → All (λ g. no_proto g.name ≡ none) gs
  All-fresh [] = tt
  All-fresh (g ∷ gs) = (refl, All-fresh gs)

  module _ (P : Group → Type 0) (keeps : All P groups) where
    -- The sort reports a duplicate name, or its loop ends with an empty queue.
    ends :
        (Distinct groups
          × (s : Sorting) × (rest placed : List Group) × (proxy_groups_dag_sort iter groups
              ≡ sorted iter s)
          × Inv P groups rest placed s
          × (s.queue ≡ []))
        ⊎ ((n : Text) × (proxy_groups_dag_sort iter groups ≡ err (duplicate n))
            × (Distinct groups → ⊥))
    unfolding proxy_groups_dag_sort Map.get
    ends =
        elim (build-cases groups (λ q. 0) no_proto [] (λ q. inr (refl, (refl, refl)))
          (λ q. omega (arith, few q))) [
            | inr (n, fails, clash) ↦ inr (n, rw fails refl, λ d. clash d (All-fresh groups))
            | inl (graph, built, shape, distinct, fresh) ↦
                let shape' : Shape (λ q. refs q groups) (λ q. group_named q groups) graph =
                  λ q. At-eq (shape q) (omega arith) refl in
                let start : Sorting = record {
                  graph = graph;
                  queue = free_names graph (iter graph);
                  index = 0;
                  groups = groups;
                } in
                let inv : Inv P groups groups [] start = record {
                  tracks = start-Tracks graph shape';
                  distinct = distinct;
                  perm = self_Perm groups;
                  array = (groups, append_nil groups, refl);
                  index = refl;
                  ordered = tt;
                  unreferred = tt;
                  keeps = keeps;
                } in
                let (s, rest, placed, done, inv', empty) =
                  sort_loop-Inv P groups (length graph) groups [] start inv (omega arith) in
                inl (distinct, s, rest, placed, rw (built, done) refl, inv', empty)
          ]

  sorted-ok :
      (P : Group → Type 0) (s : Sorting) (rest placed gs : List Group)
      → Inv P groups rest placed s
      → sorted iter s ≡ ok gs
      → Perm groups gs × Ordered gs
  unfolding Map.get
  sorted-ok P s rest placed gs inv h = elim (List-cases s.graph) [
    | inr (node, m, e) ↦ absurd (
        loop_error-ok iter (node ∷ m) gs
          (sym (ap (λ g. sorted iter (record s { graph = g })) e) ∙ h))
    | inl e ↦
        let none_left : rest ≡ [] =
          no_group rest (λ q. (inv.tracks.outside q (ap (λ m. is_some (Map.get m q)) e)).1) in
        let (pre, same, len) = inv.array in
        let all_placed : s.groups ≡ placed =
          same ∙ ap (λ xs. xs ++ placed) (length-none pre (len ∙ ap length none_left)) in
        let result : gs ≡ placed = ground (arith, e, h, all_placed) in
        rw result (subst (λ xs. Perm groups (xs ++ placed)) none_left inv.perm, inv.ordered)
  ]

  -- What the sort returns are the same groups, their names distinct, in an order in which no group
  -- refers to itself or to a group behind it, when a name has fewer than 2^32 edges.
  pub proxy_groups_dag_sort-Ordered :
      (gs : List Group)
      → proxy_groups_dag_sort iter groups ≡ ok gs
      → Distinct groups × Perm groups gs × Ordered gs
  proxy_groups_dag_sort-Ordered gs h = elim (ends (λ g. Unit) (All-unit groups)) [
    | inl (distinct, s, rest, placed, same, inv, empty) ↦
        let (perm, ordered) = sorted-ok (λ g. Unit) s rest placed gs inv (sym same ∙ h) in
        (distinct, perm, ordered)
    | inr (n, fails, clash) ↦ absurd (ground (arith, fails, h))
  ]

  -- When the names are distinct and can be ranked so that every group stands above the names it
  -- refers to, the sort succeeds, when a name has fewer than 2^32 edges.
  pub proxy_groups_dag_sort-succeeds :
      (rank : Text → ℕ)
      → Distinct groups
      → All (Ranked rank) groups
      → (gs : List Group) × (proxy_groups_dag_sort iter groups ≡ ok gs)
  proxy_groups_dag_sort-succeeds rank distinct ranked = elim (ends (Ranked rank) ranked) [
    | inl (d, s, rest, placed, same, inv, empty) ↦
        (s.groups, same ∙ rw (no_node_left rank groups rest placed s inv empty) refl)
    | inr (n, fails, clash) ↦ absurd (clash distinct)
  ]

  sorted-duplicate : (s : Sorting) (n : Text) → sorted iter s ≡ err (duplicate n) → ⊥
  sorted-duplicate s n h = elim (List-cases s.graph) [
    | inl e ↦ ground (arith, e, h)
    | inr (node, m, e) ↦
        loop_error-duplicate iter (node ∷ m) n
          (sym (ap (λ g. sorted iter (record s { graph = g })) e) ∙ h)
  ]

  sorted-fuel : (s : Sorting) → sorted iter s ≡ err out_of_fuel → ⊥
  sorted-fuel s h = elim (List-cases s.graph) [
    | inl e ↦ ground (arith, e, h)
    | inr (node, m, e) ↦
        loop_error-fuel iter (node ∷ m) (sym (ap (λ g. sorted iter (record s { graph = g })) e) ∙ h)
  ]

  -- When a name has fewer than 2^32 edges: when the names are distinct, the sort reports no duplicate,
  -- and when they are not, it reports one; the rounds of its two work lists are enough.
  pub proxy_groups_dag_sort-duplicate :
      (Distinct groups → (n : Text) → proxy_groups_dag_sort iter groups ≡ err (duplicate n) → ⊥)
      × ((Distinct groups → ⊥)
          → (n : Text) × (proxy_groups_dag_sort iter groups ≡ err (duplicate n)))
      × (proxy_groups_dag_sort iter groups ≡ err out_of_fuel → ⊥)
  proxy_groups_dag_sort-duplicate = elim (ends (λ g. Unit) (All-unit groups)) [
    | inl (distinct, s, rest, placed, same, inv, empty) ↦ (
      λ d n h. sorted-duplicate s n (sym same ∙ h),
      λ clash. absurd (clash distinct),
      λ h. sorted-fuel s (sym same ∙ h),
    )
    | inr (n, fails, clash) ↦
        (λ d. absurd (clash d), λ c. (n, fails), λ h. ground (arith, fails, h))
  ]
