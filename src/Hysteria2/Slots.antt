-- ===== src/Hysteria2/Slots.antt =====
-- clash-lib/src/proxy/hysteria2/codec.rs: the slots of `Defragger`, as the fragments that have come.
use clash_rs.Prelude.{
  zero, suc, ℕ, ◌+◌, ◌≤◌, ◌<◌, ◌==◌, Bool, true, false, ◌||◌, Option, none, some, List, [], ◌∷◌,
  ◌++◌, ◌≡◌, refl, ap, if◌then◌else◌, length, set, get_or, replicate, arith,
}
use clash_rs.Prelude.Text.{Text}
use clash_rs.Hysteria2.{HysUdpPacket, rest_payload}

abbrev pub mem : ℕ → List ℕ → Bool
mem j [] = false
mem j (i ∷ is) = i == j || mem j is

module _ (P : ℕ → HysUdpPacket) where
  -- The slots `j`, `j + 1`, … when the fragments of the list `seen` have come.
  abbrev pub slots : List ℕ → ℕ → ℕ → List (Option HysUdpPacket)
  slots seen j zero = []
  slots seen j (suc c) = (if mem j seen then some (P j) else none) ∷ slots seen (suc j) c

  -- How many of them are filled.
  abbrev pub count : List ℕ → ℕ → ℕ → ℕ
  count seen j zero = 0
  count seen j (suc c) = (if mem j seen then 1 else 0) + count seen (suc j) c

  pub length-slots : (seen : List ℕ) (j c : ℕ) → length (slots seen j c) ≡ c
  length-slots seen j zero = refl
  length-slots seen j (suc c) = ap suc (length-slots seen (suc j) c)

  pub replicate-slots : (j c : ℕ) → replicate c none ≡ slots [] j c
  replicate-slots j zero = refl
  replicate-slots j (suc c) = ap (λ x. none ∷ x) (replicate-slots (suc j) c)

  pub get_or-slots :
      (seen : List ℕ) (i j c k : ℕ)
      → i < c
      → j + i ≡ k
      → get_or (slots seen j c) i none ≡ (if mem k seen then some (P k) else none)
  get_or-slots seen i j zero k h e = absurd (omega arith)
  get_or-slots seen zero j (suc c) k h e = let same : j ≡ k = omega arith in rw same refl
  get_or-slots seen (suc i) j (suc c) k h e =
      get_or-slots seen i (suc j) c k (omega arith) (omega arith)

  -- A fragment with a smaller number changes none of the slots.
  slots-before : (seen : List ℕ) (k j c : ℕ) → k < j → slots (k ∷ seen) j c ≡ slots seen j c
  slots-before seen k j zero h = refl
  slots-before seen k j (suc c) h =
      let differ : (k == j) ≡ false = ground arith in
      rw (differ, slots-before seen k (suc j) c (omega arith)) refl

  pub set-slots :
      (seen : List ℕ) (i j c k : ℕ)
      → i < c
      → j + i ≡ k
      → set (slots seen j c) i (some (P k)) ≡ slots (k ∷ seen) j c
  set-slots seen i j zero k h e = absurd (omega arith)
  set-slots seen zero j (suc c) k h e =
      let same : j ≡ k = omega arith in
      let test : (k == k) ≡ true = ground arith in
      rw (same, test, slots-before seen k (suc k) c (omega arith)) refl
  set-slots seen (suc i) j (suc c) k h e =
      let differ : (k == j) ≡ false = ground arith in
      rw (differ, set-slots seen i (suc j) c k (omega arith) (omega arith)) refl

  count-before : (seen : List ℕ) (k j c : ℕ) → k < j → count (k ∷ seen) j c ≡ count seen j c
  count-before seen k j zero h = refl
  count-before seen k j (suc c) h =
      let differ : (k == j) ≡ false = ground arith in
      rw (differ, count-before seen k (suc j) c (omega arith)) refl

  -- A fragment that has not come before fills one slot.
  pub count-new :
      (seen : List ℕ) (i j c k : ℕ)
      → i < c
      → j + i ≡ k
      → mem k seen ≡ false
      → count (k ∷ seen) j c ≡ suc (count seen j c)
  count-new seen i j zero k h e new = absurd (omega arith)
  count-new seen zero j (suc c) k h e new =
      let same : j ≡ k = omega arith in
      let test : (k == k) ≡ true = ground arith in
      rw (same, test, new, count-before seen k (suc k) c (omega arith)) (omega arith)
  count-new seen (suc i) j (suc c) k h e new =
      let differ : (k == j) ≡ false = ground arith in
      rw (differ, count-new seen i (suc j) c k (omega arith) (omega arith) new) (omega arith)

  pub count-le : (seen : List ℕ) (j c : ℕ) → count seen j c ≤ c
  count-le seen j zero = omega arith
  count-le seen j (suc c) = ground (arith, count-le seen (suc j) c)

  -- Not all slots are filled when one fragment is missing.
  pub count-missing :
      (seen : List ℕ) (i j c k : ℕ) → i < c → j + i ≡ k → mem k seen ≡ false → count seen j c < c
  count-missing seen i j c k h e missing =
      omega (arith, count-new seen i j c k h e missing, count-le (k ∷ seen) j c)

  pub count-none : (j c : ℕ) → count [] j c ≡ 0
  count-none j zero = refl
  count-none j (suc c) = omega (arith, count-none (suc j) c)

  pub count-all :
      (seen : List ℕ) (j c : ℕ)
      → ((k : ℕ) → j ≤ k → k < j + c → mem k seen ≡ true)
      → count seen j c ≡ c
  count-all seen j zero h = refl
  count-all seen j (suc c) h =
      rw (h j (omega arith) (omega arith))
        (omega (arith, count-all seen (suc j) c (λ k a b. h k (omega arith) (omega arith))))

  -- The payloads of the fragments `j`, `j + 1`, ….
  abbrev pub payloads : ℕ → ℕ → Text
  payloads j zero = []
  payloads j (suc c) = (P j).payload ++ payloads (suc j) c

  pub rest_payload-slots :
      (seen : List ℕ) (j c : ℕ)
      → ((k : ℕ) → j ≤ k → k < j + c → mem k seen ≡ true)
      → rest_payload (slots seen j c) ≡ some (payloads j c)
  rest_payload-slots seen j zero h = refl
  rest_payload-slots seen j (suc c) h =
      rw
        (
          h j (omega arith) (omega arith),
          rest_payload-slots seen (suc j) c (λ k a b. h k (omega arith) (omega arith)),
        )
        refl
