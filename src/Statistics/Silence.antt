-- ===== src/Statistics/Silence.antt =====
-- clash-lib/src/app/dispatcher/{statistics_manager.rs, tracked.rs}: an atomic action adds to a closed
-- stream what it was still to count.
use clash_rs.Prelude.{
  if◌then◌else◌, some, none, Option, List, [], ◌∷◌, ap, ◌∙◌, ℕ, ◌+◌, ◌%◌, ◌^◌, ◌<◌, ◌==◌, ◌||◌,
  Bool, true, false, Bool-cases, inl, inr, ◌≡◌, refl, arith,
}
use clash_rs.Statistics.{
  Tracker, Manager, Action, add_upload_temp, add_upload_total, add_download_temp,
  add_download_total, count_upload, count_download, send_notify, remove_closed, remove_dropped,
  is_tracked, update, drop_sender, notify, remove, act, act_next, Event, copying_read,
  copying_write,
}
use clash_rs.Statistics.Sums.{is_waiting, update_at, update_other, pend, of_next}

module _ (k : ℕ) where
  -- What an action counts for the stream
  abbrev pub upload_for : Action → ℕ
  upload_for (count_upload i n) = if i == k then n else 0
  upload_for _ = 0

  abbrev pub download_for : Action → ℕ
  download_for (count_download i n) = if i == k then n else 0
  download_for _ = 0

  -- What the stream has counted, with what is still to be counted for it, is the same modulo 2⁶⁴.
  abbrev pub SameBytes : Manager → Manager → Type 0
  SameBytes m m' =
      (((m'.trackers k).upload_total + pend upload_for m'.threads) % 2 ^ 64
        ≡ ((m.trackers k).upload_total + pend upload_for m.threads) % 2 ^ 64)
      × (((m'.trackers k).download_total + pend download_for m'.threads) % 2 ^ 64
          ≡ ((m.trackers k).download_total + pend download_for m.threads) % 2 ^ 64)

  -- A tracker of the zero-copy relay of the stream
  abbrev pub is_copy : Event → Bool
  is_copy (copying_read i n) = i == k
  is_copy (copying_write i n) = i == k
  is_copy _ = false

  abbrev pub copies : List Event → Bool
  copies [] = false
  copies (e ∷ es) = is_copy e || copies es

  -- The stream was opened and waits for no notification; `u` and `d` are what it counts in the end.
  pub record IsClosed (u d : ℕ) (next : Option Action) (m : Manager) : Type 0 where
    pub opened : k < m.opened
    pub silent : is_waiting (m.trackers k).close_notify ≡ false
    pub up :
        ((m.trackers k).upload_total + (of_next upload_for next + pend upload_for m.threads))
          % 2 ^ 64
        ≡ u % 2 ^ 64
    pub down :
        ((m.trackers k).download_total + (of_next download_for next + pend download_for m.threads))
          % 2 ^ 64
        ≡ d % 2 ^ 64

  nothing : (b : Bool) → ◌≡◌ {A = ℕ} 0 (if b then 0 else 0)
  nothing true = refl
  nothing false = refl

  module _ (u d : ℕ) where
    -- Stream `i` is changed by an action that counts `a` and `b` bytes for it.
    moved :
        (next : Option Action) (m : Manager) (i : ℕ) (t : Tracker) (js : List ℕ) (a b : ℕ)
        → IsClosed u d next m
        → t.upload_total % 2 ^ 64 ≡ ((m.trackers i).upload_total + a) % 2 ^ 64
        → t.download_total % 2 ^ 64 ≡ ((m.trackers i).download_total + b) % 2 ^ 64
        → (is_waiting (m.trackers i).close_notify ≡ false → is_waiting t.close_notify ≡ false)
        → of_next upload_for next ≡ (if i == k then a else 0)
        → of_next download_for next ≡ (if i == k then b else 0)
        → IsClosed u d none (record m { trackers = update m.trackers i t; connections = js })
    moved next m i t js a b c up down silent counts_a counts_b = elim (Bool-cases (i == k)) [
      | inl e ↦
          let eq : i ≡ k = ground arith in
          let at = update_at m.trackers i k t e in
          let a' : of_next upload_for next ≡ a = counts_a ∙ rw e refl in
          let b' : of_next download_for next ≡ b = counts_b ∙ rw e refl in
          record {
            opened = c.opened;
            silent =
                ap (λ x. is_waiting x.close_notify) at
                ∙ silent (ap (λ j. is_waiting (m.trackers j).close_notify) eq ∙ c.silent);
            up = omega (
              arith,
              c.up,
              up,
              a',
              ap (λ x. x.upload_total) at,
              ap (λ j. (m.trackers j).upload_total) eq,
            );
            down = omega (
              arith,
              c.down,
              down,
              b',
              ap (λ x. x.download_total) at,
              ap (λ j. (m.trackers j).download_total) eq,
            );
          }
      | inr e ↦
          let at = update_other m.trackers i k t e in
          let a' : of_next upload_for next ≡ 0 = counts_a ∙ rw e refl in
          let b' : of_next download_for next ≡ 0 = counts_b ∙ rw e refl in
          record {
            opened = c.opened;
            silent = ap (λ x. is_waiting x.close_notify) at ∙ c.silent;
            up = omega (arith, c.up, a', ap (λ x. x.upload_total) at);
            down = omega (arith, c.down, b', ap (λ x. x.download_total) at);
          }
    ]

    -- A change of a stream that counts nothing
    pub told :
        (next : Option Action) (m : Manager) (i : ℕ) (t : Tracker) (js : List ℕ)
        → IsClosed u d next m
        → t.upload_total ≡ (m.trackers i).upload_total
        → t.download_total ≡ (m.trackers i).download_total
        → is_waiting t.close_notify ≡ false
        → of_next upload_for next ≡ 0
        → of_next download_for next ≡ 0
        → IsClosed u d none (record m { trackers = update m.trackers i t; connections = js })
    told next m i t js c up down silent counts_a counts_b =
        moved next m i t js 0 0 c (omega (arith, up)) (omega (arith, down)) (λ w. silent)
          (counts_a ∙ nothing (i == k)) (counts_b ∙ nothing (i == k))

    pub same :
        (next : Option Action) (m m' : Manager)
        → IsClosed u d next m
        → of_next upload_for next ≡ 0
        → of_next download_for next ≡ 0
        → m'.opened ≡ m.opened
        → m'.trackers k ≡ m.trackers k
        → m'.threads ≡ m.threads
        → IsClosed u d none m'
    same next m m' c a b opened at threads = record {
      opened = omega (arith, c.opened, opened);
      silent = ap (λ x. is_waiting x.close_notify) at ∙ c.silent;
      up = omega (arith, c.up, a, ap (λ x. x.upload_total) at, ap (pend upload_for) threads);
      down =
          omega (arith, c.down, b, ap (λ x. x.download_total) at, ap (pend download_for) threads);
    }

    act-IsClosed :
        (a : Action) (m : Manager) → IsClosed u d (some a) m → IsClosed u d none (act a m)
    act-IsClosed (add_upload_temp n) m c = same _ m _ c refl refl refl refl refl
    act-IsClosed (add_upload_total n) m c = same _ m _ c refl refl refl refl refl
    act-IsClosed (add_download_temp n) m c = same _ m _ c refl refl refl refl refl
    act-IsClosed (add_download_total n) m c = same _ m _ c refl refl refl refl refl
    act-IsClosed (count_upload i n) m c =
        moved (some (count_upload i n)) m i _ m.connections n 0 c (omega arith) (omega arith)
          (λ w. w) refl (nothing (i == k))
    act-IsClosed (count_download i n) m c =
        moved (some (count_download i n)) m i _ m.connections 0 n c (omega arith) (omega arith)
          (λ w. w) (nothing (i == k)) refl
    act-IsClosed (send_notify i) m c =
        told (some (send_notify i)) m i (notify (m.trackers i)) m.connections c refl refl refl refl
          refl
    act-IsClosed (remove_closed i) m c = elim (Bool-cases (is_tracked i m.connections)) [
      | inl e ↦ rw e (
          told (some (remove_closed i)) m i (notify (m.trackers i)) (remove i m.connections) c refl
            refl refl refl refl)
      | inr e ↦ rw e (same (some (remove_closed i)) m m c refl refl refl refl refl)
    ]
    act-IsClosed (remove_dropped i) m c = elim (Bool-cases (is_tracked i m.connections)) [
      | inl e ↦ rw e (
          told (some (remove_dropped i)) m i (drop_sender (m.trackers i)) (remove i m.connections) c
            refl refl refl refl refl)
      | inr e ↦ rw e (same (some (remove_dropped i)) m m c refl refl refl refl refl)
    ]

    pub act_next-IsClosed :
        (m : Manager) (next : Option Action) (ts : List (List Action))
        → IsClosed u d next (record m { threads = ts })
        → IsClosed u d none (act_next (next, ts) m)
    act_next-IsClosed m none ts c = c
    act_next-IsClosed m (some a) ts c = act-IsClosed a (record m { threads = ts }) c
