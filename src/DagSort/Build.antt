-- ===== src/DagSort/Build.antt =====
-- The graph that the configured groups make.
use clash_rs.Prelude.{
  ℕ, suc, ◌+◌, ◌<◌, ◌^◌, false, Bool-cases, Option, Option-cases, or_else, none, some, is_some,
  List, [], ◌∷◌, ◌≡◌, ◌⊎◌, inl, inr, refl, sym, ap, subst, fun_ext, ◌∙◌, if◌then◌else◌, ◌==◌, arith,
}
use clash_rs.Prelude.Text.{Text, text_eq, text_eq_iff}
use clash_rs.Prelude.Map
use clash_rs.Prelude.Map.{get-insert}
use clash_rs.Prelude.Outcome.{ok, err}
use clash_rs.DagSort.{
  fresh_node, cons_free, increment, Group, Node, Graph, duplicate, edges_of, node_or_new, node_for,
  add_edge, add_edges, build, free_names,
}
use clash_rs.DagSort.Counts.{count, refs, group_named, Distinct, All}

-- A name has a node with its degree and group, or it has no node, no edge and no group.
abbrev pub At : Option Node → ℕ → Option Group → Type 0
At node deg proto =
    (node ≡ some (fresh_node (deg) (proto))) ⊎ ((node ≡ none) × ((deg ≡ 0) × (proto ≡ none)))

abbrev pub Shape : (Text → ℕ) → (Text → Option Group) → Graph → Type 0
Shape deg proto graph = (q : Text) → At (Map.get graph q) (deg q) (proto q)

node_or_new-At :
    (node : Option Node) (deg : ℕ) (proto : Option Group)
    → At node deg proto
    → suc deg < 2 ^ 32
    → node_or_new node ≡ fresh_node (suc deg) (proto)
node_or_new-At none deg proto (inl e) h = absurd (ground (arith, e))
node_or_new-At none deg proto (inr (e, (none_yet, no_group))) h = rw (none_yet, no_group) refl
node_or_new-At (some nd) deg proto (inl e) h =
    let same_deg : nd.in_degree ≡ deg = ground (arith, e) in
    let same_proto : nd.proto ≡ proto = ground (arith, e) in
    let no_out : nd.outdegree ≡ 0 = ground (arith, e) in
    let no_from : nd.from ≡ [] = ground (arith, e) in
    let up : increment deg ≡ suc deg = omega arith in
    ground (arith, same_deg, same_proto, no_out, no_from, up)
node_or_new-At (some nd) deg proto (inr (e, x)) h = absurd (ground (arith, e))

add_edges-Shape :
    (es : List Text) (deg : Text → ℕ) (proto : Text → Option Group) (graph : Graph)
    → Shape deg proto graph
    → ((q : Text) → count q es + deg q < 2 ^ 32)
    → Shape (λ q. count q es + deg q) proto (add_edges graph es)
unfolding add_edges
add_edges-Shape [] deg proto graph shape small =
    subst (λ d. Shape d proto graph) (fun_ext (λ q. omega arith)) shape
add_edges-Shape (p ∷ es) deg proto graph shape small =
    let deg' = λ (q : Text). if text_eq p q then suc (deg q) else deg q in
    let fits : suc (deg p) < 2 ^ 32 = ground (arith, small p, text_eq_iff p p) in
    let nd = node_or_new-At (Map.get graph p) (deg p) (proto p) (shape p) fits in
    let now : Shape deg' proto (add_edge graph p) = λ q. elim (Bool-cases (text_eq p q)) [
      | inl same ↦ inl (
          rw (get-insert graph p (node_or_new (Map.get graph p)) q, same)
            (ap some nd
              ∙ ap (λ x. some (fresh_node (suc (deg x)) (proto x))) ((text_eq_iff p q).0 same)))
      | inr other ↦ rw (get-insert graph p (node_or_new (Map.get graph p)) q, other) (shape q)
    ] in
    subst (λ d. Shape d proto (add_edges (add_edge graph p) es)) (fun_ext (λ q. ground arith))
      (add_edges-Shape es deg' proto (add_edge graph p) now (λ q. ground (arith, small q)))

-- No group of the list has a node with a group.
abbrev pub Fresh : (Text → Option Group) → List Group → Type 0
Fresh proto gs = All (λ g. proto g.name ≡ none) gs

module _ (deg : Text → ℕ) (proto : Text → Option Group) (graph : Graph)
    (shape : Shape deg proto graph) (g : Group) where
  node_for-duplicate :
      (h : Group)
      → proto g.name ≡ some h
      → node_for g (Map.get graph g.name) ≡ err (duplicate g.name)
  node_for-duplicate h taken = elim (shape g.name) [
    | inl e ↦ rw (e, taken) refl
    | inr (e, (x, gone)) ↦ absurd (ground (arith, gone, taken))
  ]

  node_for-Shape :
      proto g.name ≡ none
      → (node_for g (Map.get graph g.name) ≡ ok (fresh_node (deg g.name) (some g)))
        × Shape deg
            (λ q. if text_eq g.name q then some g else proto q)
            (Map.insert graph g.name (fresh_node (deg g.name) (some g)))
  node_for-Shape free = (
    elim (shape g.name) [
      | inl e ↦ rw (e, free) refl
      | inr (e, (no_edge, x)) ↦ rw (e, no_edge) refl
    ],
    λ q. elim (Bool-cases (text_eq g.name q)) [
      | inl same ↦ inl (
          rw (get-insert graph g.name (fresh_node (deg g.name) (some g)) q, same)
            (ap (λ x. some (fresh_node (deg x) (some g))) ((text_eq_iff g.name q).0 same)))
      | inr other ↦
          rw (get-insert graph g.name (fresh_node (deg g.name) (some g)) q, other) (shape q)
    ],
  )

abbrev with_group : Group → (Text → Option Group) → Text → Option Group
with_group g proto q = if text_eq g.name q then some g else proto q

Fresh-split :
    (g : Group) (proto : Text → Option Group) (gs : List Group)
    → Fresh (with_group g proto) gs
    → (group_named g.name gs ≡ none) × Fresh proto gs
Fresh-split g proto [] f = (refl, f)
Fresh-split g proto (h ∷ gs) (f, fs) =
    let (rest, fresh) = Fresh-split g proto gs fs in
    (
      ground (arith, f, rest, text_eq_iff h.name g.name, text_eq_iff g.name h.name),
      (ground (arith, f), fresh),
    )

Fresh-join :
    (g : Group) (proto : Text → Option Group) (gs : List Group)
    → group_named g.name gs ≡ none
    → Fresh proto gs
    → Fresh (with_group g proto) gs
Fresh-join g proto [] e f = f
Fresh-join g proto (h ∷ gs) e (f, fs) =
    let rest : group_named g.name gs ≡ none = ground (arith, e) in
    (
      ground (arith, f, e, text_eq_iff h.name g.name, text_eq_iff g.name h.name),
      Fresh-join g proto gs rest fs,
    )

pub At-eq :
    {node : Option Node} {deg deg' : ℕ} {proto proto' : Option Group}
    → At node deg proto
    → deg ≡ deg'
    → proto ≡ proto'
    → At node deg' proto'
At-eq {node} {deg} {deg'} {proto} {proto'} a d p =
    subst (λ n. At node n proto') d (subst (λ o. At node deg o) p a)

or_else-none {ℓ} : {A : Type ℓ} (o : Option A) → o ≡ or_else o none
or_else-none none = refl
or_else-none (some a) = refl

or_else-with_group :
    (g : Group) (proto : Text → Option Group) (gs : List Group)
    → proto g.name ≡ none
    → (q : Text)
    → or_else (with_group g proto q) (group_named q gs) ≡ or_else (proto q) (group_named q (g ∷ gs))
or_else-with_group g proto gs free q = elim (Bool-cases (text_eq g.name q)) [
  | inl same ↦
      let no_group : proto q ≡ none =
        subst (λ x. proto x ≡ none) ((text_eq_iff g.name q).0 same) free in
      rw (same, no_group) refl
  | inr other ↦ rw other refl
]

-- The graph has the edges and the groups of the list, or two of its groups have one name.
pub build-cases :
    (gs : List Group) (deg : Text → ℕ) (proto : Text → Option Group) (graph : Graph)
    → Shape deg proto graph
    → ((q : Text) → refs q gs + deg q < 2 ^ 32)
    → ((graph' : Graph) × (build gs graph ≡ ok graph')
        × Shape (λ q. refs q gs + deg q) (λ q. or_else (proto q) (group_named q gs)) graph'
        × Distinct gs
        × Fresh proto gs)
      ⊎ ((n : Text) × (build gs graph ≡ err (duplicate n)) × (Distinct gs → Fresh proto gs → ⊥))
unfolding build
build-cases [] deg proto graph shape small =
    inl (graph, refl, λ q. At-eq (shape q) (omega arith) (or_else-none (proto q)), tt, tt)
build-cases (g ∷ gs) deg proto graph shape small = elim (Option-cases (proto g.name)) [
  | inr (h, taken) ↦ inr (
    g.name,
    rw (node_for-duplicate deg proto graph shape g h taken) refl,
    λ d f. ground (arith, f.0, taken),
  )
  | inl free ↦
      let (made, with_node) = node_for-Shape deg proto graph shape g free in
      let graph1 = Map.insert graph g.name (fresh_node (deg g.name) (some g)) in
      let with_edges =
        add_edges-Shape (edges_of g) deg (with_group g proto) graph1 with_node
          (λ q. omega (arith, small q)) in
      elim (build-cases gs (λ q. count q (edges_of g) + deg q) (with_group g proto)
        (add_edges graph1 (edges_of g)) with_edges (λ q. omega (arith, small q))) [
          | inl (graph', built, shape', distinct, fresh) ↦
              let (none_same, fresh') = Fresh-split g proto gs fresh in
              inl (
                graph',
                rw made built,
                λ q. At-eq (shape' q) (omega arith) (or_else-with_group g proto gs free q),
                (none_same, distinct),
                (free, fresh'),
              )
          | inr (n, fails, clash) ↦
              inr (n, rw made fails, λ d f. clash d.1 (Fresh-join g proto gs d.0 f.1))
        ]
]

count-cons_free-other :
    (q k : Text) (node : Option Node) (ks : List Text)
    → text_eq k q ≡ false
    → count q (cons_free k node ks) ≡ count q ks
count-cons_free-other q k none ks other = refl
count-cons_free-other q k (some nd) ks other = ground (arith, other)

count-cons_free :
    (q : Text) (node : Option Node) (deg : ℕ) (proto : Option Group) (ks : List Text) (n : ℕ)
    → At node deg proto
    → count q ks ≡ (if is_some node then (if deg == 0 then n else 0) else 0)
    → count q (cons_free q node ks) ≡ (if is_some node then (if deg == 0 then suc n else 0) else 0)
count-cons_free q none deg proto ks n a h = h
count-cons_free q (some nd) deg proto ks n (inl e) h =
    let same_deg : nd.in_degree ≡ deg = ground (arith, e) in
    ground (arith, same_deg, h, text_eq_iff q q)
count-cons_free q (some nd) deg proto ks n (inr (e, x)) h = absurd (ground (arith, e))

-- In the order of the map, the names of the nodes without an edge.
pub count-free_names :
    (q : Text) (graph : Graph) (deg : ℕ) (proto : Option Group) (ks : List Text)
    → At (Map.get graph q) deg proto
    → count q (free_names graph ks)
      ≡ (if is_some (Map.get graph q) then (if deg == 0 then count q ks else 0) else 0)
unfolding free_names
count-free_names q graph deg proto [] a = ground arith
count-free_names q graph deg proto (k ∷ ks) a = elim (Bool-cases (text_eq k q)) [
  | inl same ↦ rw same (
      subst
        (λ x.
          count q (cons_free x (Map.get graph x) (free_names graph ks))
          ≡ (if is_some (Map.get graph q) then (if deg == 0 then suc (count q ks) else 0) else 0))
        (sym ((text_eq_iff k q).0 same))
        (count-cons_free q (Map.get graph q) deg proto (free_names graph ks) (count q ks) a
          (count-free_names q graph deg proto ks a)))
  | inr other ↦
      rw (count-cons_free-other q k (Map.get graph k) (free_names graph ks) other, other)
        (count-free_names q graph deg proto ks a)
]
