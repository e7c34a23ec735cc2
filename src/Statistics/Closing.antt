-- ===== src/Statistics/Closing.antt =====
-- clash-lib/src/app/dispatcher/{statistics_manager.rs, tracked.rs}: what a closed stream still counts.
use clash_rs.Prelude.{
  some, none, Option, List, [], ◌∷◌, sym, ap, ◌∙◌, ℕ, ◌+◌, ◌<◌, ◌==◌, ltb, true, false, Bool-cases,
  ==_iff, inl, inr, ◌≡◌, refl, arith,
}
use clash_rs.Statistics.{
  Signal, waiting, notified, gone, Manager, Action, remove_closed, remove_dropped, no_tracker,
  is_tracked, drop_sender, notify, notify_each, uploaded, downloaded, act, next_action, by_signal,
  if_some, Event, opening, closing_all, storing_upload, clearing_upload, storing_download,
  clearing_download, acting, closing, dropping, polling, reading, sending, copying_read,
  copying_write, writing, receiving, step, run,
}
use clash_rs.Statistics.Sums.{is_waiting, update_other, pend, pend_thread, next_action-pend}
use clash_rs.Statistics.Silence.{
  upload_for, download_for, SameBytes, is_copy, copies, IsClosed, told, same, act_next-IsClosed,
}

module _ (k u d : ℕ) (m : Manager) (c : IsClosed k u d none m) where
  acting-IsClosed : (n : ℕ) → IsClosed k u d none (step (acting n) m)
  acting-IsClosed n =
      act_next-IsClosed k u d m (next_action n m.threads).0 (next_action n m.threads).1 (record {
        opened = c.opened;
        silent = c.silent;
        up = omega (arith, c.up, next_action-pend (upload_for k) n m.threads);
        down = omega (arith, c.down, next_action-pend (download_for k) n m.threads);
      })

  -- A thread that counts nothing for the stream
  spawn-IsClosed :
      (actions : List Action) (js : List ℕ)
      → pend_thread (upload_for k) actions ≡ 0
      → pend_thread (download_for k) actions ≡ 0
      → IsClosed k u d none (record m { threads = actions ∷ m.threads; connections = js })
  spawn-IsClosed actions js a b = record {
    opened = c.opened;
    silent = c.silent;
    up = omega (arith, c.up, a);
    down = omega (arith, c.down, b);
  }

  other : (i : ℕ) → (m.trackers i).close_notify ≡ waiting → (i == k) ≡ false
  other i e = elim (Bool-cases (i == k)) [
    | inl same_stream ↦
        let eq : i ≡ k = ground arith in
        let waits : is_waiting (m.trackers k).close_notify ≡ true =
          ap (λ j. is_waiting (m.trackers j).close_notify) (sym eq) ∙ ap is_waiting e in
        absurd (ground (arith, c.silent, waits))
    | inr differ ↦ differ
  ]

  by_signal-IsClosed :
      (i : ℕ) (actions : List Action) (σ : Signal)
      → (m.trackers i).close_notify ≡ σ
      → ((i == k) ≡ false → pend_thread (upload_for k) actions ≡ 0)
      → ((i == k) ≡ false → pend_thread (download_for k) actions ≡ 0)
      → IsClosed k u d none (by_signal i actions σ m)
  by_signal-IsClosed i actions waiting e a b =
      spawn-IsClosed actions m.connections (a (other i e)) (b (other i e))
  by_signal-IsClosed i actions notified e a b =
      told k u d none m i (drop_sender (m.trackers i)) m.connections c refl refl refl refl refl
  by_signal-IsClosed i actions gone e a b = c

  downloads_other : (i n : ℕ) → (i == k) ≡ false → pend_thread (download_for k) (downloaded i n) ≡ 0
  downloads_other i n h = rw h refl

  uploads_other : (i n : ℕ) → (i == k) ≡ false → pend_thread (upload_for k) (uploaded i n) ≡ 0
  uploads_other i n h = rw h refl

  checked_write :
      (i : ℕ) (n : Option ℕ)
      → IsClosed k u d none (by_signal i (if_some (uploaded i) n) (m.trackers i).close_notify m)
  checked_write i none = by_signal-IsClosed i [] _ refl (λ h. refl) (λ h. refl)
  checked_write i (some n) =
      by_signal-IsClosed i (uploaded i n) _ refl (uploads_other i n) (λ h. refl)

  checked_read :
      (i : ℕ) (n : Option ℕ)
      → IsClosed k u d none (by_signal i (if_some (downloaded i) n) (m.trackers i).close_notify m)
  checked_read i none = by_signal-IsClosed i [] _ refl (λ h. refl) (λ h. refl)
  checked_read i (some n) =
      by_signal-IsClosed i (downloaded i n) _ refl (λ h. refl) (downloads_other i n)

  opening-IsClosed : IsClosed k u d none (step opening m)
  opening-IsClosed =
      let at =
        update_other m.trackers m.opened k (record no_tracker { close_notify = waiting })
          (ground (arith, c.opened)) in
      record {
        opened = omega (arith, c.opened);
        silent = ap (λ x. is_waiting x.close_notify) at ∙ c.silent;
        up = omega (arith, c.up, ap (λ x. x.upload_total) at);
        down = omega (arith, c.down, ap (λ x. x.download_total) at);
      }

  notify_each-pend :
      (js : List ℕ)
      → (pend_thread (upload_for k) (notify_each js) ≡ 0)
        × (pend_thread (download_for k) (notify_each js) ≡ 0)
  notify_each-pend [] = (refl, refl)
  notify_each-pend (j ∷ js) =
      let (a, b) = notify_each-pend js in (omega (arith, a), omega (arith, b))

  step-IsClosed : (e : Event) → is_copy k e ≡ false → IsClosed k u d none (step e m)
  step-IsClosed opening h = opening-IsClosed
  step-IsClosed closing_all h =
      let (a, b) = notify_each-pend m.connections in
      spawn-IsClosed (notify_each m.connections) [] a b
  step-IsClosed storing_upload h = same k u d none m _ c refl refl refl refl refl
  step-IsClosed clearing_upload h = same k u d none m _ c refl refl refl refl refl
  step-IsClosed storing_download h = same k u d none m _ c refl refl refl refl refl
  step-IsClosed clearing_download h = same k u d none m _ c refl refl refl refl refl
  step-IsClosed (acting n) h = acting-IsClosed n
  step-IsClosed (closing i) h = spawn-IsClosed (remove_closed i ∷ []) m.connections refl refl
  step-IsClosed (dropping i) h = spawn-IsClosed (remove_dropped i ∷ []) m.connections refl refl
  step-IsClosed (polling i) h = by_signal-IsClosed i [] _ refl (λ h. refl) (λ h. refl)
  step-IsClosed (reading i n) h = checked_read i (some n)
  step-IsClosed (sending i n) h = checked_write i (some n)
  step-IsClosed (writing i n) h = checked_write i n
  step-IsClosed (receiving i n) h = checked_read i n
  step-IsClosed (copying_read i n) h = elim (Bool-cases (ltb i m.opened)) [
    | inl e ↦ rw e (spawn-IsClosed (downloaded i n) m.connections refl (downloads_other i n h))
    | inr e ↦ rw e c
  ]
  step-IsClosed (copying_write i n) h = elim (Bool-cases (ltb i m.opened)) [
    | inl e ↦ rw e (spawn-IsClosed (uploaded i n) m.connections (uploads_other i n h) refl)
    | inr e ↦ rw e c
  ]

module _ (k : ℕ) where
  module _ (u d : ℕ) where
    run-IsClosed :
        (es : List Event) (m : Manager)
        → IsClosed k u d none m
        → copies k es ≡ false
        → IsClosed k u d none (run es m)
    run-IsClosed [] m c h = c
    run-IsClosed (e ∷ es) m c h =
        run-IsClosed es (step e m) (step-IsClosed k u d m c e (ground (arith, h)))
          (ground (arith, h))

  -- When the task of `close` has removed a tracked stream, no order of the atomic actions changes what the
  -- stream has counted with what is still to be counted for it, modulo 2⁶⁴: what a poll was still to count
  -- when the stream was removed is added, and no later poll adds to it. The trackers of the zero-copy relay
  -- of the stream do not look for the notification, and the condition on the events leaves them out.
  pub run-close :
      (es : List Event) (m : Manager)
      → k < m.opened
      → is_tracked k m.connections ≡ true
      → copies k es ≡ false
      → SameBytes k m (run es (act (remove_closed k) m))
  run-close es m known tracked h =
      let at : (act (remove_closed k) m).trackers k ≡ notify (m.trackers k) =
        rw (tracked, (==_iff k k).1 refl) refl in
      let same_opened : (act (remove_closed k) m).opened ≡ m.opened = rw tracked refl in
      let same_threads : (act (remove_closed k) m).threads ≡ m.threads = rw tracked refl in
      let c =
        run-IsClosed ((m.trackers k).upload_total + pend (upload_for k) m.threads)
          ((m.trackers k).download_total + pend (download_for k) m.threads) es
          (act (remove_closed k) m)
          (record {
            opened = omega (arith, same_opened, known);
            silent = ap (λ x. is_waiting x.close_notify) at;
            up = omega (arith, ap (λ x. x.upload_total) at, ap (pend (upload_for k)) same_threads);
            down =
                omega
                  (arith, ap (λ x. x.download_total) at, ap (pend (download_for k)) same_threads);
          })
          h in
      (omega (arith, c.up), omega (arith, c.down))
