-- ===== src/DagSort/Pops.antt =====
-- A name that leaves the queue, and what the groups that are placed keep.
use clash_rs.Prelude.{
  ℕ, zero, suc, ◌≤◌, ◌&&◌, Bool, true, false, not, Bool-cases, Option, none, some, is_some, List,
  [], ◌∷◌, ◌++◌, ◌≡◌, inl, inr, refl, subst, ◌∙◌, length, set, take, if◌then◌else◌, arith,
}
use clash_rs.Prelude.Text.{Text, text_eq, text_eq_iff}
use clash_rs.Prelude.Map
use clash_rs.DagSort.{Group, Graph}
use clash_rs.DagSort.Counts.{count, refs, All}
use clash_rs.DagSort.Tracks.{Tracks}

module _ (here : Text → Bool) (deg : Text → ℕ) (proto : Text → Option Group) (graph : Graph)
    (name : Text) (queue : List Text) (t : Tracks here deg proto graph (name ∷ queue)) where
  -- A name in the queue has a node and no edge.
  pub popped : (here name ≡ true) × (deg name ≡ 0)
  popped = (
    ground (arith, t.queued name, text_eq_iff name name),
    ground (arith, t.queued name, text_eq_iff name name),
  )

  pub pop-Tracks :
      (proto' : Text → Option Group) (graph' : Graph)
      → ((q : Text) → text_eq name q ≡ false → Map.get graph' q ≡ Map.get graph q)
      → ((q : Text) → proto' q ≡ (if text_eq name q then none else proto q))
      → Tracks (λ q. here q && not (text_eq name q)) deg proto' graph' queue
  pop-Tracks proto' graph' same_node same_proto = record {
    inside = λ q h.
        let is_here : here q ≡ true = ground (arith, h) in
        let other : text_eq name q ≡ false = ground (arith, h) in
        let proto_q : proto' q ≡ proto q = same_proto q ∙ rw other refl in
        rw (same_node q other, proto_q) (t.inside q is_here);
    outside = λ q h. elim (Bool-cases (text_eq name q)) [
      | inl same ↦ (
        subst (λ x. deg x ≡ 0) ((text_eq_iff name q).0 same) popped.1,
        same_proto q ∙ rw same refl,
      )
      | inr other ↦
          let gone : here q ≡ false = ground (arith, h, other) in
          ((t.outside q gone).0, same_proto q ∙ (rw other (t.outside q gone).1))
    ];
    queued = λ q. ground (arith, t.queued q);
    small = t.small;
  }

pub set_last {ℓ} :
    {A : Type ℓ} (pre post : List A) (k : ℕ) (x : A)
    → length pre ≡ suc k
    → set (pre ++ post) k x ≡ take k pre ++ (x ∷ post)
set_last [] post k x h = absurd (omega arith)
set_last (y ∷ []) post zero x h = refl
set_last (y ∷ (z ∷ pre)) post zero x h = absurd (omega arith)
set_last (y ∷ pre) post (suc k) x h = rw (set_last pre post k x (omega arith)) refl

pub some_of {ℓ} : {A : Type ℓ} (o : Option A) → is_some o ≡ true → (a : A) × (o ≡ some a)
some_of none h = absurd (ground (arith, h))
some_of (some a) h = (a, refl)

pub All-unreferred :
    (rest rest' : List Group)
    → ((q : Text) → refs q rest' ≤ refs q rest)
    → (hs : List Group) → All (λ h. refs h.name rest ≡ 0) hs
    → All (λ h. refs h.name rest' ≡ 0) hs
All-unreferred rest rest' fewer [] a = a
All-unreferred rest rest' fewer (h ∷ hs) (a, rest_a) =
    (omega (arith, fewer h.name), All-unreferred rest rest' fewer hs rest_a)

pub All-unmentioned :
    (rest : List Group) (es : List Text)
    → ((q : Text) → count q es ≤ refs q rest)
    → (hs : List Group) → All (λ h. refs h.name rest ≡ 0) hs
    → All (λ h. count h.name es ≡ 0) hs
All-unmentioned rest es fewer [] a = a
All-unmentioned rest es fewer (h ∷ hs) (a, rest_a) =
    (omega (arith, fewer h.name), All-unmentioned rest es fewer hs rest_a)
