-- ===== src/DagSort/Tracks.antt =====
-- What the graph and the queue hold: a node for each name that is `here`, with the number of the
-- edges to it and its group, and in the queue, once, each of these names without an edge.
use clash_rs.Prelude.{
  fun_ext, subst, ℕ, suc, ◌+◌, ◌<◌, ◌^◌, ◌&&◌, Bool, true, false, not, Bool-cases, Option, none,
  some, is_some, List, [], ◌∷◌, ◌≡◌, inl, inr, refl, sym, ap, ◌∙◌, length, ◌==◌, if◌then◌else◌,
  arith,
}
use clash_rs.Prelude.Text.{Text, text_eq, text_eq_iff}
use clash_rs.Prelude.Map
use clash_rs.Prelude.Map.{Map, get-insert, get-remove, length-insert}
use clash_rs.Prelude.Outcome.{ok}
use clash_rs.DagSort.{fresh_node, Group, Node, Graph, decrement, drop_edges, push_free}
use clash_rs.DagSort.Counts.{count, count-append}

pub record Tracks (here : Text → Bool) (deg : Text → ℕ) (proto : Text → Option Group)
    (graph : Graph) (queue : List Text) : Type 0 where
  pub inside : (q : Text) → here q ≡ true → Map.get graph q ≡ some (fresh_node (deg q) (proto q))
  pub outside : (q : Text) → here q ≡ false → (deg q ≡ 0) × (proto q ≡ none)
  pub queued : (q : Text) → count q queue ≡ (if here q then (if deg q == 0 then 1 else 0) else 0)
  pub small : (q : Text) → deg q < 2 ^ 32

module _ (here : Text → Bool) (proto : Text → Option Group) where
  module _ (deg deg' : Text → ℕ) (graph : Graph) (queue : List Text) (p : Text)
      (t : Tracks here deg proto graph queue)
      (less : (q : Text) → deg q ≡ (if text_eq p q then suc (deg' q) else deg' q)) where
    is_here : here p ≡ true
    is_here = elim (Bool-cases (here p)) [
      | inl yet ↦ yet
      | inr gone ↦ absurd (ground (arith, less p, text_eq_iff p p, (t.outside p gone).0))
    ]

    push_free_self :
        count p (push_free (deg' p) p queue)
        ≡ (if here p then (if deg' p == 0 then 1 else 0) else 0)
    push_free_self =
        ground (arith, is_here, t.queued p, less p, text_eq_iff p p, count-append p queue (p ∷ []))

    push_free-queued :
        (q : Text)
        → count q (push_free (deg' p) p queue)
          ≡ (if here q then (if deg' q == 0 then 1 else 0) else 0)
    push_free-queued q = elim (Bool-cases (text_eq p q)) [
      | inl same ↦
          subst
            (λ x.
              count x (push_free (deg' p) p queue)
              ≡ (if here x then (if deg' x == 0 then 1 else 0) else 0))
            ((text_eq_iff p q).0 same) push_free_self
      | inr other ↦ ground (arith, other, t.queued q, less q, count-append q queue (p ∷ []))
    ]

  drop_edge-Tracks :
      (deg deg' : Text → ℕ) (graph : Graph) (queue : List Text) (p : Text)
      → Tracks here deg proto graph queue
      → ((q : Text) → deg q ≡ (if text_eq p q then suc (deg' q) else deg' q))
      → (Map.get graph p ≡ some (fresh_node (suc (deg' p)) (proto p)))
        × Tracks here deg' proto
            (Map.insert graph p (fresh_node (deg' p) (proto p)))
            (push_free (deg' p) p queue)
  drop_edge-Tracks deg deg' graph queue p t less =
      let at_p : deg p ≡ suc (deg' p) = ground (arith, less p, text_eq_iff p p) in
      (
        t.inside p (is_here deg deg' graph queue p t less)
            ∙ ap (λ n. some (fresh_node (n) (proto p))) at_p,
        record {
          inside = λ q h. elim (Bool-cases (text_eq p q)) [
            | inl same ↦
                rw (get-insert graph p (fresh_node (deg' p) (proto p)) q, same)
                  (ap (λ x. some (fresh_node (deg' x) (proto x))) ((text_eq_iff p q).0 same))
            | inr other ↦
                let same_deg : deg q ≡ deg' q = ground (arith, less q, other) in
                rw (get-insert graph p (fresh_node (deg' p) (proto p)) q, other)
                  (t.inside q h ∙ ap (λ n. some (fresh_node (n) (proto q))) same_deg)
          ];
          outside = λ q h.
              let (none_left, no_group) = t.outside q h in
              (ground (arith, none_left, less q), no_group);
          queued = push_free-queued deg deg' graph queue p t less;
          small = λ q. ground (arith, less q, t.small q);
        },
      )

  -- Dropping a list of edges counts each of them down once, and no name appears or goes.
  pub drop_edges-Tracks :
      (ps : List Text) (deg : Text → ℕ) (graph : Graph) (queue : List Text)
      → Tracks here (λ q. count q ps + deg q) proto graph queue
      → (graph' : Graph) × (queue' : List Text) × (drop_edges ps (graph, queue)
          ≡ ok (graph', queue'))
        × Tracks here deg proto graph' queue'
        × ((q : Text) → is_some (Map.get graph' q) ≡ is_some (Map.get graph q))
        × (length graph' ≡ length graph)
  unfolding drop_edges
  drop_edges-Tracks [] deg graph queue t = (
    graph,
    queue,
    refl,
    subst (λ d. Tracks here d proto graph queue) (fun_ext (λ q. omega arith)) t,
    λ q. refl,
    refl,
  )
  drop_edges-Tracks (p ∷ ps) deg graph queue t =
      let deg' = λ (q : Text). count q ps + deg q in
      let (found, t') =
        drop_edge-Tracks (λ q. count q (p ∷ ps) + deg q) deg' graph queue p t
          (λ q. ground (arith)) in
      let graph' = Map.insert graph p (fresh_node (deg' p) (proto p)) in
      let (graph'', queue'', dropped, tracks, same, size) =
        drop_edges-Tracks ps deg graph' (push_free (deg' p) p queue) t' in
      let down : decrement (suc (deg' p)) ≡ deg' p = omega (arith, t'.small p) in
      let nd : Node = fresh_node (deg' p) (proto p) in
      (
        graph'',
        queue'',
        rw (found, down) dropped,
        tracks,
        λ q. same q ∙ ground (arith, get-insert graph p nd q, found, text_eq_iff p q),
        size ∙ length-insert graph p nd (fresh_node (suc (deg' p)) (proto p)) found,
      )

-- Removing the node of a name that is not `here`.
pub remove-Tracks :
    (here : Text → Bool) (deg : Text → ℕ) (proto : Text → Option Group) (graph : Graph)
    (queue : List Text) (name : Text)
    → Tracks here deg proto graph queue
    → ((q : Text) → here q ≡ (is_some (Map.get graph q) && not (text_eq name q)))
    → Tracks
        (λ q. is_some (Map.get (Map.remove graph name) q))
        deg
        proto
        (Map.remove graph name)
        queue
remove-Tracks here deg proto graph queue name t rest =
    let left : (q : Text) → is_some (Map.get (Map.remove graph name) q) ≡ here q =
      λ q. ground (arith, get-remove graph name q, rest q) in
    record {
      inside = λ q h.
          let is_here : here q ≡ true = sym (left q) ∙ h in
          let other : text_eq name q ≡ false = ground (arith, rest q, is_here) in
          rw (get-remove graph name q, other) (t.inside q is_here);
      outside = λ q h. t.outside q (sym (left q) ∙ h);
      queued = λ q. rw (left q) (t.queued q);
      small = t.small;
    }
