-- ===== src/Hysteria2/Defrag.antt =====
-- clash-lib/src/proxy/hysteria2/codec.rs: `Defragger::feed` on the fragments of one packet.
use clash_rs.Prelude.{
  append-nil, ℕ, zero, suc, ◌++◌, map, replicate, some, ◌+◌, ◌%◌, ◌^◌, ◌<◌, ◌==◌, ==_iff, ltb, leb,
  not, Bool, true, false, ◌&&◌, ◌||◌, Option, none, List, [], ◌∷◌, ◌≡◌, refl, sym, Bool-cases, inl,
  inr, if◌then◌else◌, length, arith,
}
use mathlib.Core.List.{map-append}
use clash_rs.Prelude.Outcome.{Outcome, ok}
use clash_rs.Session.Buffer.{IoError}
use clash_rs.Prelude.Text.{Text}
use clash_rs.Hysteria2.{join, HysUdpPacket, Defragger, filled, feed}
use clash_rs.Hysteria2.Slots.{
  rest_payload-slots, count-all, count-missing, mem, slots, count, length-slots, replicate-slots,
  get_or-slots, set-slots, count-new, count-le, count-none, payloads,
}

-- What `feed` returns on packets that come one after the other.
abbrev pub outcomes : Defragger → List HysUdpPacket → List (Outcome IoError (Option HysUdpPacket))
outcomes d [] = []
outcomes d (p ∷ ps) = (feed d p).1 ∷ outcomes (feed d p).0 ps

-- The defragger holds nothing of the packet `k` of `n` fragments.
abbrev pub IsFresh : Defragger → ℕ → ℕ → Type 0
IsFresh d k n = not (k == d.pkt_id) || not (n == length d.frags) ≡ true

abbrev pub all_below : ℕ → List ℕ → Bool
all_below n [] = true
all_below n (i ∷ is) = ltb i n && all_below n is

-- The numbers of `seen` and of `is`, each once.
abbrev pub after : List ℕ → List ℕ → List ℕ
after seen [] = seen
after seen (i ∷ is) = after (if mem i seen then seen else i ∷ seen) is

or_again : (b c d : Bool) → (c ≡ true → b ≡ true) → b || (c || d) ≡ b || d
or_again true c d h = refl
or_again false false d h = refl
or_again false true d h = absurd (ground (arith, h refl))

mem-same : (i j : ℕ) (seen : List ℕ) → mem i seen ≡ true → (i == j) ≡ true → mem j seen ≡ true
mem-same i j seen h e = let same : i ≡ j = ground arith in rw⁻¹ same h

mem-after : (j : ℕ) (seen is : List ℕ) → mem j (after seen is) ≡ mem j seen || mem j is
mem-after j seen [] = or_false (mem j seen)
  where
    or_false : (b : Bool) → b ≡ b || false
    or_false true = refl
    or_false false = refl
mem-after j seen (i ∷ is) = elim (Bool-cases (mem i seen)) [
  | inl e ↦
      rw (e, mem-after j seen is)
        (sym (or_again (mem j seen) (i == j) (mem j is) (mem-same i j seen e)))
  | inr e ↦ rw (e, mem-after j (i ∷ seen) is) (or_swap (i == j) (mem j seen) (mem j is))
]
  where
    or_swap : (b c d : Bool) → (b || c) || d ≡ c || (b || d)
    or_swap true true d = refl
    or_swap true false d = refl
    or_swap false c d = refl

module _ (base : HysUdpPacket) (n : ℕ) (pieces : ℕ → Text) where
  -- The fragment `j` of `n` of a packet.
  abbrev pub fragment : ℕ → HysUdpPacket
  fragment j = record base { frag_id = j; frag_count = n; payload = pieces j }

  -- The state when the fragments of `seen` have come, and not all of them.
  abbrev pub holding : List ℕ → Defragger
  holding seen = record {
    pkt_id = base.pkt_id;
    frags = slots fragment seen 0 n;
    cnt = count fragment seen 0 n;
  }

  abbrev pub whole : HysUdpPacket
  whole = record base { frag_count = 1; frag_id = 0; payload = payloads fragment 0 n }

module _ (base : HysUdpPacket) (pieces : ℕ → Text) where
  join-slots :
      (seen : List ℕ) (n : ℕ)
      → 0 < n
      → ((j : ℕ) → j < n → mem j seen ≡ true)
      → join (slots (fragment base n pieces) seen 0 n) ≡ ok (some (whole base n pieces))
  join-slots seen zero pos all = absurd (omega arith)
  join-slots seen (suc n) pos all = rw (
    all 0 pos,
    rest_payload-slots (fragment base (suc n) pieces) seen 1 n (λ j a b. all j (omega arith)),
  )

module _ (base : HysUdpPacket) (n : ℕ) (pieces : ℕ → Text) (many : 1 < n) (few : n < 2 ^ 8) where
  feed-first :
      (d : Defragger) (i : ℕ)
      → i < n
      → IsFresh d base.pkt_id n
      → feed d (fragment base n pieces i) ≡ (holding base n pieces (i ∷ []), ok none)
  unfolding feed
  feed-first d i h fresh =
      let P = fragment base n pieces in
      let split : (n == 1) ≡ false = ground arith in
      let valid : leb n i ≡ false = ground arith in
      let one : 1 ≡ count P (i ∷ []) 0 n =
        omega (arith, count-new P [] i 0 n i h (omega arith) refl, count-none P 0 n) in
      rw (split, valid, fresh, replicate-slots P 0 n, set-slots P [] i 0 n i h (omega arith), one)

  module _ (seen : List ℕ) (i : ℕ) (h : i < n) where
    feed-again :
        mem i seen ≡ true
        → feed (holding base n pieces seen) (fragment base n pieces i)
          ≡ (holding base n pieces seen, ok none)
    unfolding feed
    feed-again old =
        let P = fragment base n pieces in
        let split : (n == 1) ≡ false = ground arith in
        let valid : leb n i ≡ false = ground arith in
        let inside : ltb i n ≡ true = ground arith in
        rw (
          split,
          valid,
          (==_iff base.pkt_id base.pkt_id).1 refl,
          length-slots P seen 0 n,
          (==_iff n n).1 refl,
          inside,
          get_or-slots P seen i 0 n i h (omega arith),
          old,
        )

    feed-new :
        mem i seen ≡ false
        → feed (holding base n pieces seen) (fragment base n pieces i)
          ≡ filled
              (holding base n pieces seen)
              (slots (fragment base n pieces) (i ∷ seen) 0 n)
              (count (fragment base n pieces) (i ∷ seen) 0 n)
    unfolding feed
    feed-new new =
        let P = fragment base n pieces in
        let split : (n == 1) ≡ false = ground arith in
        let valid : leb n i ≡ false = ground arith in
        let inside : ltb i n ≡ true = ground arith in
        let next : (count P seen 0 n + 1) % 2 ^ 16 ≡ count P (i ∷ seen) 0 n =
          omega (arith, count-new P seen i 0 n i h (omega arith) new, count-le P (i ∷ seen) 0 n) in
        rw (
          split,
          valid,
          (==_iff base.pkt_id base.pkt_id).1 refl,
          length-slots P seen 0 n,
          (==_iff n n).1 refl,
          inside,
          get_or-slots P seen i 0 n i h (omega arith),
          new,
          set-slots P seen i 0 n i h (omega arith),
          next,
        )

    feed-early :
        (missing : ℕ)
        → missing < n
        → mem i seen ≡ false
        → mem missing (i ∷ seen) ≡ false
        → feed (holding base n pieces seen) (fragment base n pieces i)
          ≡ (holding base n pieces (i ∷ seen), ok none)
    feed-early missing below new absent =
        let P = fragment base n pieces in
        let test : (count P (i ∷ seen) 0 n == n) ≡ false =
          ground
            (arith, count-missing P (i ∷ seen) missing 0 n missing below (omega arith) absent) in
        rw (feed-new new, length-slots P (i ∷ seen) 0 n, test) refl

  feed-last :
      (seen : List ℕ) (i : ℕ)
      → i < n
      → mem i seen ≡ false
      → ((j : ℕ) → j < n → mem j (i ∷ seen) ≡ true)
      → (feed (holding base n pieces seen) (fragment base n pieces i)).1
        ≡ ok (some (whole base n pieces))
  feed-last seen i h new all =
      let P = fragment base n pieces in
      let full : count P (i ∷ seen) 0 n ≡ n =
        count-all P (i ∷ seen) 0 n (λ j a b. all j (omega arith)) in
      rw (feed-new seen i h new, length-slots P (i ∷ seen) 0 n, full, (==_iff n n).1 refl)
        (join-slots base pieces (i ∷ seen) n (omega arith) all)

  -- While one fragment is missing, `feed` returns nothing.
  outcomes-early :
      (seen is : List ℕ) (missing : ℕ) (rest : List HysUdpPacket)
      → missing < n
      → all_below n is ≡ true
      → mem missing seen ≡ false
      → mem missing is ≡ false
      → outcomes (holding base n pieces seen) (map (fragment base n pieces) is ++ rest)
        ≡ replicate (length is) (ok none) ++ outcomes (holding base n pieces (after seen is)) rest
  outcomes-early seen [] missing rest h below absent absent' = refl
  outcomes-early seen (i ∷ is) missing rest h below absent absent' =
      let (i_below, is_below) : (i < n) × (all_below n is ≡ true) = ground arith in
      let (other, is_absent) : ((i == missing) ≡ false) × (mem missing is ≡ false) = ground arith in
      elim (Bool-cases (mem i seen)) [
        | inl e ↦
            rw
              (
                feed-again seen i i_below e,
                e,
                outcomes-early seen is missing rest h is_below absent is_absent,
              )
              refl
        | inr e ↦
            let absent'' : mem missing (i ∷ seen) ≡ false = ground arith in
            rw
              (
                feed-early seen i i_below missing h e absent'',
                e,
                outcomes-early (i ∷ seen) is missing rest h is_below absent'' is_absent,
              )
              refl
      ]

  -- Until the last missing fragment comes `feed` returns nothing, then the whole packet.
  feed_complete :
      (d : Defragger) (is : List ℕ) (last : ℕ)
      → IsFresh d base.pkt_id n
      → all_below n is ≡ true
      → last < n
      → mem last is ≡ false
      → ((j : ℕ) → j < n → mem j (last ∷ is) ≡ true)
      → outcomes d (map (fragment base n pieces) (is ++ (last ∷ [])))
        ≡ replicate (length is) (ok none) ++ (ok (some (whole base n pieces)) ∷ [])
  feed_complete d [] last fresh below h absent all =
      let (a, b) : ((last == 0) || false ≡ true) × ((last == 1) || false ≡ true) =
        (all 0 (omega arith), all 1 many) in
      absurd (ground arith)
  feed_complete d (i ∷ is) last fresh below h absent all =
      let P = fragment base n pieces in
      let (i_below, is_below) : (i < n) × (all_below n is ≡ true) = ground arith in
      let (other, is_absent) : ((i == last) ≡ false) × (mem last is ≡ false) = ground arith in
      let absent' : mem last (i ∷ []) ≡ false = ground arith in
      let seen = after (i ∷ []) is in
      let new : mem last seen ≡ false = ground (arith, mem-after last (i ∷ []) is) in
      let covered : (j : ℕ) → j < n → mem j (last ∷ seen) ≡ true =
        λ j b. ground (arith, mem-after j (i ∷ []) is, all j b) in
      rw
        (
          map-append P is (last ∷ []),
          feed-first d i i_below fresh,
          outcomes-early (i ∷ []) is last (map P (last ∷ [])) h is_below absent' is_absent,
          feed-last seen last h new covered,
        )
        refl

-- A packet of one fragment is returned at once.
feed-single :
    (base : HysUdpPacket) (pieces : ℕ → Text) (d : Defragger) (is : List ℕ)
    → all_below 1 is ≡ true
    → mem 0 is ≡ false
    → outcomes d (map (fragment base 1 pieces) (is ++ (0 ∷ [])))
      ≡ replicate (length is) (ok none) ++ (ok (some (whole base 1 pieces)) ∷ [])
unfolding feed
feed-single base pieces d [] below absent = rw (append-nil (pieces 0)) refl
feed-single base pieces d (i ∷ is) below absent = absurd (ground arith)

-- The fragments of a packet in any order, repeated or not.
pub feed-fragments :
    (base : HysUdpPacket) (n : ℕ) (pieces : ℕ → Text) (d : Defragger) (is : List ℕ) (last : ℕ)
    → n < 2 ^ 8
    → IsFresh d base.pkt_id n
    → all_below n is ≡ true
    → last < n
    → mem last is ≡ false
    → ((j : ℕ) → j < n → mem j (last ∷ is) ≡ true)
    → outcomes d (map (fragment base n pieces) (is ++ (last ∷ [])))
      ≡ replicate (length is) (ok none) ++ (ok (some (whole base n pieces)) ∷ [])
feed-fragments base n pieces d is last few fresh below h absent all = elim (Bool-cases (ltb 1 n)) [
  | inl e ↦ feed_complete base n pieces (ground arith) few d is last fresh below h absent all
  | inr e ↦
      let one : n ≡ 1 = ground arith in
      let only : last ≡ 0 = ground arith in
      rw (one, only) (feed-single base pieces d is (rw⁻¹ one below) (rw⁻¹ only absent))
]
