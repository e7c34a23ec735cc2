-- ===== src/DagSort/Rounds.antt =====
-- One round of the work list, and the loop.
use mathlib.Core.List.{Perm, perm_middle}
use mathlib.Core.List.Perm
use clash_rs.Prelude.{
  ℕ, zero, suc, ◌+◌, ◌-◌, ◌<◌, ◌≤◌, ◌&&◌, true, false, not, none, some, is_some, Option-cases,
  List-cases, List, [], ◌∷◌, ◌++◌, ◌≡◌, inl, inr, refl, ap, subst, fun_ext, ◌∙◌, length, set, take,
  length-take, length-append, ltb, arith,
}
use clash_rs.Prelude.Text.{Text, text_eq, text_eq_iff}
use clash_rs.Prelude.Map
use clash_rs.Prelude.Map.{get-insert, length-remove, length-insert}
use clash_rs.Prelude.Outcome.{ok}
use clash_rs.DagSort.{
  fresh_node, Group, Graph, Sorting, edges_of, drop_edges, sort_round, sort_loop,
}
use clash_rs.DagSort.Counts.{
  count, refs, group_named, drop_group, Distinct, All, Ordered, group_named-name, refs-drop_group,
  length-drop_group, drop_group-perm, drop_group-All, group_named-drop_group, drop_group-Distinct,
}
use clash_rs.DagSort.Tracks.{Tracks, drop_edges-Tracks, remove-Tracks}
use clash_rs.DagSort.Pops.{popped, pop-Tracks, set_last, some_of, All-unreferred, All-unmentioned}

module _ (P : Group → Type 0) (all : List Group) where
  -- `rest` are the groups that are still in the graph, `placed` those at the end of the array.
  pub record Inv (rest placed : List Group) (s : Sorting) : Type 0 where
    pub tracks :
        Tracks
          (λ q. is_some (Map.get s.graph q))
          (λ q. refs q rest)
          (λ q. group_named q rest)
          s.graph
          s.queue
    pub distinct : Distinct rest
    pub perm : Perm all (rest ++ placed)
    pub array : (pre : List Group) × (s.groups ≡ pre ++ placed) × (length pre ≡ length rest)
    pub index : s.index ≡ length placed
    pub ordered : Ordered placed
    pub unreferred : All (λ h. refs h.name rest ≡ 0) placed
    pub keeps : All P rest

  module _ (rest placed : List Group) (s : Sorting) (inv : Inv rest placed s) (name : Text)
      (queue : List Text) (next : s.queue ≡ name ∷ queue) where
    tracks :
        Tracks
          (λ q. is_some (Map.get s.graph q))
          (λ q. refs q rest)
          (λ q. group_named q rest)
          s.graph
          (name ∷ queue)
    tracks =
        subst
          (Tracks (λ q. is_some (Map.get s.graph q)) (λ q. refs q rest) (λ q. group_named q rest)
            s.graph)
          next inv.tracks

    -- A name that is no group's leaves the graph.
    round_proxy :
        group_named name rest ≡ none
        → (s' : Sorting) × (sort_round name queue s ≡ ok s')
          × Inv rest placed s'
          × (length s'.graph < length s.graph)
    unfolding sort_round
    round_proxy none_here =
        let (is_here, free) =
          popped (λ q. is_some (Map.get s.graph q)) (λ q. refs q rest) (λ q. group_named q rest)
            s.graph name queue tracks in
        let node = tracks.inside name is_here in
        let popped_tracks =
          pop-Tracks (λ q. is_some (Map.get s.graph q)) (λ q. refs q rest) (λ q. group_named q rest)
            s.graph name queue tracks (λ q. group_named q rest) s.graph (λ q h. refl)
            (λ q. ground (arith, text_eq_iff name q, none_here)) in
        (
          record s { graph = Map.remove s.graph name; queue = queue },
          rw (node, none_here) refl,
          record {
            tracks = remove-Tracks _ _ _ s.graph queue name popped_tracks (λ q. refl);
            distinct = inv.distinct;
            perm = inv.perm;
            array = inv.array;
            index = inv.index;
            ordered = inv.ordered;
            unreferred = inv.unreferred;
            keeps = inv.keeps;
          },
          length-remove s.graph name _ node,
        )

    module _ (g : Group) (found : group_named name rest ≡ some g) where
      abbrev others : List Group
      others = drop_group name rest

      abbrev taken : Graph
      taken = Map.insert s.graph name (fresh_node (refs name rest) (none))

      -- The graph and the queue once the edges of the group are dropped.
      dropped :
          (graph : Graph) × (queue' : List Text) × (drop_edges (edges_of g) (taken, queue)
            ≡ ok (graph, queue'))
          × Tracks
              (λ q. is_some (Map.get s.graph q) && not (text_eq name q))
              (λ q. refs q others)
              (λ q. group_named q others)
              graph
              queue'
          × ((q : Text) → is_some (Map.get graph q) ≡ is_some (Map.get taken q))
          × (length graph ≡ length taken)
      dropped =
          let popped_tracks =
            pop-Tracks (λ q. is_some (Map.get s.graph q)) (λ q. refs q rest)
              (λ q. group_named q rest) s.graph name queue tracks (λ q. group_named q others) taken
              (λ q h. get-insert s.graph name (fresh_node (refs name rest) (none)) q ∙ rw h refl)
              (λ q. group_named-drop_group name q rest inv.distinct) in
          drop_edges-Tracks (λ q. is_some (Map.get s.graph q) && not (text_eq name q))
            (λ q. group_named q others) (edges_of g) (λ q. refs q others) taken queue
            (subst
              (λ d.
                Tracks (λ q. is_some (Map.get s.graph q) && not (text_eq name q)) d
                  (λ q. group_named q others) taken queue)
              (fun_ext (λ q. refs-drop_group name q rest found)) popped_tracks)

      sizes : (length rest ≡ suc (length others)) × (length s.groups ≡ length rest + length placed)
      sizes =
          let (pre, same, len) = inv.array in
          (
            length-drop_group name rest found,
            ap length same ∙ omega (arith, length-append pre placed, len),
          )

      array' :
          (pre : List Group) × (set s.groups (length s.groups - suc s.index) g
            ≡ pre ++ (g ∷ placed))
          × (length pre ≡ length others)
      array' =
          let (pre, same, len) = inv.array in
          let (one_less, total) = sizes in
          let at_end : length s.groups - suc s.index ≡ length others = omega (arith, inv.index) in
          (
            take (length others) pre,
            rw (at_end, same) (set_last pre placed (length others) g (len ∙ one_less)),
            omega (arith, length-take (length others) pre),
          )

      -- A group takes its place in front of those that are placed.
      round_group :
          (s' : Sorting) × (sort_round name queue s ≡ ok s')
          × Inv others (g ∷ placed) s'
          × (length s'.graph < length s.graph)
      unfolding sort_round
      round_group =
          let (is_here, free) =
            popped (λ q. is_some (Map.get s.graph q)) (λ q. refs q rest) (λ q. group_named q rest)
              s.graph name queue tracks in
          let node = tracks.inside name is_here in
          let (graph, queue', drops, t, same, size) = dropped in
          let g_name = group_named-name name rest found in
          let fewer : (q : Text) → refs q others ≤ refs q rest =
            λ q. omega (arith, refs-drop_group name q rest found) in
          let mentions : (q : Text) → count q (edges_of g) ≤ refs q rest =
            λ q. omega (arith, refs-drop_group name q rest found) in
          let still : is_some (Map.get graph name) ≡ true =
            same name
            ∙ ground (
              arith,
              get-insert s.graph name (fresh_node (refs name rest) (none)) name,
              text_eq_iff name name,
            ) in
          let (one_less, total) = sizes in
          let room : ltb (length s.groups) (suc s.index) ≡ false =
            ground (arith, one_less, total, inv.index) in
          (
            record {
              graph = Map.remove graph name;
              queue = queue';
              index = suc s.index;
              groups = set s.groups (length s.groups - suc s.index) g;
            },
            rw (node, found, room, drops) refl,
            record {
              tracks = remove-Tracks _ _ _ graph queue' name t (λ q.
                  ground (
                    arith,
                    same q,
                    get-insert s.graph name (fresh_node (refs name rest) (none)) q,
                  ));
              distinct = drop_group-Distinct name rest inv.distinct;
              perm = Perm.trans inv.perm (
                  Perm.trans (Perm.append_right placed (drop_group-perm name rest found))
                    (Perm.symm (perm_middle others placed)));
              array = array';
              index = rw inv.index refl;
              ordered = (
                (
                  rw g_name (omega (arith, mentions name, free)),
                  All-unmentioned rest (edges_of g) mentions placed inv.unreferred,
                ),
                inv.ordered,
              );
              unreferred = (
                rw g_name (omega (arith, fewer name, free)),
                All-unreferred rest others fewer placed inv.unreferred,
              );
              keeps = drop_group-All name P rest inv.keeps;
            },
            omega (
              arith,
              length-remove graph name (some_of (Map.get graph name) still).0
                  (some_of (Map.get graph name) still).1,
              size,
              length-insert s.graph name (fresh_node (refs name rest) (none))
                  (fresh_node (refs name rest) (group_named name rest)) node,
            ),
          )

    round :
        (s' : Sorting) × (rest' placed' : List Group) × (sort_round name queue s ≡ ok s')
        × Inv rest' placed' s'
        × (length s'.graph < length s.graph)
    round = elim (Option-cases (group_named name rest)) [
      | inl proxy ↦
          let (s', ends, inv', less) = round_proxy proxy in (s', rest, placed, ends, inv', less)
      | inr (g, found) ↦
          let (s', ends, inv', less) = round_group g found in
          (s', drop_group name rest, g ∷ placed, ends, inv', less)
    ]

  -- A round for each node is enough: the loop ends with an empty queue.
  pub sort_loop-Inv :
      (fuel : ℕ) (rest placed : List Group) (s : Sorting)
      → Inv rest placed s
      → length s.graph ≤ fuel
      → (s' : Sorting) × (rest' placed' : List Group) × (sort_loop fuel s ≡ ok s')
        × Inv rest' placed' s'
        × (s'.queue ≡ [])
  unfolding sort_loop
  sort_loop-Inv zero rest placed s inv few = elim (List-cases s.queue) [
    | inl empty ↦ (s, rest, placed, ground (arith, empty), inv, empty)
    | inr (name, queue, e) ↦
        let (s', rest', placed', ends, inv', less) = round rest placed s inv name queue e in
        absurd (omega (arith, less))
  ]
  sort_loop-Inv (suc fuel) rest placed s inv few = elim (List-cases s.queue) [
    | inl empty ↦ (s, rest, placed, ground (arith, empty), inv, empty)
    | inr (name, queue, e) ↦
        let (s', rest', placed', ends, inv', less) = round rest placed s inv name queue e in
        let (t, rest_t, placed_t, done, inv_t, empty) =
          sort_loop-Inv fuel rest' placed' s' inv' (omega (arith, less)) in
        (t, rest_t, placed_t, rw (sort_loop, e, ends) done, inv_t, empty)
  ]
