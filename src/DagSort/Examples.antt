-- ===== src/DagSort/Examples.antt =====
-- Three groups, the first of which refers to the second, and the second to the third.
use clash_rs.Prelude.{
  true, ℕ, ◌<◌, ◌^◌, none, some, List, [], ◌∷◌, ◌≡◌, refl, subst, inl, inr, if◌then◌else◌,
  Bool-cases, arith,
}
use mathlib.Core.List.{Perm}
use clash_rs.Prelude.Text.{Text, codes, text_eq, text_eq_iff}
use clash_rs.Prelude.Map
use clash_rs.Prelude.Outcome.{ok, err}
use clash_rs.DagSort.{
  Group, Graph, duplicate, loop_detected, out_of_fuel, unwind, loop_error, add_edges, build,
  free_names, drop_edges, sort_round, sort_loop, proxy_groups_dag_sort,
}
use clash_rs.DagSort.Counts.{count, refs, Distinct, All, Ordered}
use clash_rs.DagSort.Order.{
  YieldsKeys, Ranked, proxy_groups_dag_sort-Ordered, proxy_groups_dag_sort-succeeds,
  proxy_groups_dag_sort-duplicate,
}

abbrev group : Text → List Text → Group
group name proxies = record { name = name; proxies = some proxies }

abbrev first_group : Group
first_group = group (codes "a") (codes "b" ∷ codes "DIRECT" ∷ [])

abbrev second_group : Group
second_group = group (codes "b") (codes "c" ∷ [])

abbrev third_group : Group
third_group = record { name = codes "c"; proxies = none }

abbrev groups : List Group
groups = first_group ∷ second_group ∷ third_group ∷ []

abbrev without : Text → List Text → List Text
without k [] = []
without k (j ∷ js) = let rest = without k js in if text_eq k j then rest else j ∷ rest

abbrev keys : Graph → List Text
keys [] = []
keys ((k, nd) ∷ graph) = k ∷ without k (keys graph)

count-without :
    (q k : Text) (ks : List Text) → count q (without k ks) ≡ (if text_eq k q then 0 else count q ks)
count-without q k [] = ground arith
count-without q k (j ∷ ks) =
    ground (arith, count-without q k ks, text_eq_iff k j, text_eq_iff j q, text_eq_iff k q)

keys-YieldsKeys : YieldsKeys keys
unfolding Map.get
keys-YieldsKeys [] q = refl
keys-YieldsKeys ((k, nd) ∷ graph) q =
    ground (arith, count-without q k (keys graph), keys-YieldsKeys graph q)

few_edges : (q : Text) → refs q groups < 2 ^ 32
few_edges q = ground arith

parents_last :
    proxy_groups_dag_sort keys groups ≡ ok (third_group ∷ second_group ∷ first_group ∷ [])
unfolding proxy_groups_dag_sort build add_edges free_names sort_loop sort_round drop_edges Map.get
    Map.insert Map.remove
parents_last = refl

-- The first group leads to a loop of the other two, and is not of it.
a_loop :
    proxy_groups_dag_sort keys
      (first_group ∷ second_group ∷ group (codes "c") (codes "b" ∷ codes "DIRECT" ∷ []) ∷ [])
    ≡ err (loop_detected (codes "b" ∷ codes "c" ∷ []))
unfolding proxy_groups_dag_sort build add_edges free_names sort_loop sort_round drop_edges unwind
    loop_error Map.get Map.insert Map.remove
a_loop = refl

proxy_groups_dag_sort-Ordered_example :
    Distinct groups
    × Perm groups (third_group ∷ second_group ∷ first_group ∷ [])
    × Ordered (third_group ∷ second_group ∷ first_group ∷ [])
proxy_groups_dag_sort-Ordered_example =
    proxy_groups_dag_sort-Ordered keys keys-YieldsKeys groups few_edges
      (third_group ∷ second_group ∷ first_group ∷ []) parents_last

abbrev rank : Text → ℕ
rank q =
    if text_eq q (codes "a")
    then 3
    else if text_eq q (codes "b")
    then 2
    else if text_eq q (codes "c")
    then 1
    else 0

below : (n : ℕ) (k q : Text) → rank k < n → text_eq k q ≡ true → rank q < n
below n k q h same = subst (λ x. rank x < n) ((text_eq_iff k q).0 same) h

groups-Ranked : All (Ranked rank) groups
groups-Ranked = (
  λ q h. elim (Bool-cases (text_eq (codes "b") q)) [
    | inl b ↦ below 3 (codes "b") q (omega arith) b
    | inr other ↦ elim (Bool-cases (text_eq (codes "DIRECT") q)) [
      | inl direct ↦ below 3 (codes "DIRECT") q (omega arith) direct
      | inr neither ↦ absurd (ground (arith, h, other, neither))
    ]
  ],
  (
    λ q h. elim (Bool-cases (text_eq (codes "c") q)) [
      | inl c ↦ below 2 (codes "c") q (omega arith) c
      | inr other ↦ absurd (ground (arith, h, other))
    ],
    (λ q h. absurd (omega (arith, h)), tt),
  ),
)

proxy_groups_dag_sort-succeeds_example :
    (gs : List Group) × (proxy_groups_dag_sort keys groups ≡ ok gs)
proxy_groups_dag_sort-succeeds_example =
    proxy_groups_dag_sort-succeeds keys keys-YieldsKeys groups few_edges rank
      (refl, (refl, (refl, tt))) groups-Ranked

proxy_groups_dag_sort-duplicate_example :
    (Distinct groups → (n : Text) → proxy_groups_dag_sort keys groups ≡ err (duplicate n) → ⊥)
    × ((Distinct groups → ⊥) → (n : Text) × (proxy_groups_dag_sort keys groups ≡ err (duplicate n)))
    × (proxy_groups_dag_sort keys groups ≡ err out_of_fuel → ⊥)
proxy_groups_dag_sort-duplicate_example =
    proxy_groups_dag_sort-duplicate keys keys-YieldsKeys groups few_edges
