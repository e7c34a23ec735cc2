-- ===== src/Statistics/Totals.antt =====
-- clash-lib/src/app/dispatcher/{statistics_manager.rs, tracked.rs}: the totals are the sums over the
-- streams.
use clash_rs.Prelude.{
  some, none, Option, List, [], ◌∷◌, sym, ap, ◌∙◌, ℕ, suc, ◌+◌, ◌%◌, ◌^◌, ◌<◌, ◌==◌, ltb,
  Bool-cases, inl, inr, ◌≡◌, refl, arith,
}
use clash_rs.Statistics.{
  Signal, waiting, notified, gone, Tracker, Manager, Action, remove_closed, remove_dropped,
  no_tracker, new, update, drop_sender, notify_each, uploaded, downloaded, next_action, by_signal,
  if_some, Event, opening, closing_all, storing_upload, clearing_upload, storing_download,
  clearing_download, acting, closing, dropping, polling, reading, sending, copying_read,
  copying_write, writing, receiving, step, run,
}
use clash_rs.Statistics.Sums.{
  sum_below, sum-before, is_waiting, update_at, update_other, pend, pend_thread, next_action-pend,
  upload_added, download_added, upload_counted, download_counted, unknown, pend-suc, Sums, silenced,
}
use clash_rs.Statistics.Acts.{act_next-Sums}

module _ (m : Manager) (s : Sums none m) where
  acting-Sums : (n : ℕ) → Sums none (step (acting n) m)
  acting-Sums n = act_next-Sums m (next_action n m.threads).0 (next_action n m.threads).1 (record {
    uploads = omega (
      arith,
      s.uploads,
      next_action-pend upload_added n m.threads,
      next_action-pend upload_counted n m.threads,
    );
    downloads = omega (
      arith,
      s.downloads,
      next_action-pend download_added n m.threads,
      next_action-pend download_counted n m.threads,
    );
    known = s.known;
    counts = omega (arith, s.counts, next_action-pend (unknown m.opened) n m.threads);
  })

  -- A thread that adds to the manager's totals what it counts for streams that are opened
  spawn-Sums :
      (actions : List Action)
      → pend_thread upload_added actions ≡ pend_thread upload_counted actions
      → pend_thread download_added actions ≡ pend_thread download_counted actions
      → pend_thread (unknown m.opened) actions ≡ 0
      → Sums none (record m { threads = actions ∷ m.threads })
  spawn-Sums actions up down opened = record {
    uploads = omega (arith, s.uploads, up);
    downloads = omega (arith, s.downloads, down);
    known = s.known;
    counts = omega (arith, s.counts, opened);
  }

  by_signal-Sums :
      (i : ℕ) (actions : List Action) (σ : Signal)
      → (m.trackers i).close_notify ≡ σ
      → pend_thread upload_added actions ≡ pend_thread upload_counted actions
      → pend_thread download_added actions ≡ pend_thread download_counted actions
      → (i < m.opened → pend_thread (unknown m.opened) actions ≡ 0)
      → Sums none (by_signal i actions σ m)
  by_signal-Sums i actions waiting e up down opened =
      spawn-Sums actions up down (opened (s.known i (ap is_waiting e)))
  by_signal-Sums i actions notified e up down opened =
      silenced none m i (drop_sender (m.trackers i)) m.connections s refl refl refl refl refl refl
        refl
  by_signal-Sums i actions gone e up down opened = s

  downloaded-Sums : (i n : ℕ) → (i < m.opened → pend_thread (unknown m.opened) (downloaded i n) ≡ 0)
  downloaded-Sums i n h = ground (arith, h)

  uploaded-Sums : (i n : ℕ) → (i < m.opened → pend_thread (unknown m.opened) (uploaded i n) ≡ 0)
  uploaded-Sums i n h = ground (arith, h)

  checked_write :
      (i : ℕ) (n : Option ℕ)
      → Sums none (by_signal i (if_some (uploaded i) n) (m.trackers i).close_notify m)
  checked_write i none = by_signal-Sums i [] _ refl refl refl (λ h. refl)
  checked_write i (some n) =
      by_signal-Sums i (uploaded i n) _ refl (omega arith) refl (uploaded-Sums i n)

  checked_read :
      (i : ℕ) (n : Option ℕ)
      → Sums none (by_signal i (if_some (downloaded i) n) (m.trackers i).close_notify m)
  checked_read i none = by_signal-Sums i [] _ refl refl refl (λ h. refl)
  checked_read i (some n) =
      by_signal-Sums i (downloaded i n) _ refl refl (omega arith) (downloaded-Sums i n)

  opening-Sums : Sums none (step opening m)
  opening-Sums =
      let fresh = record no_tracker { close_notify = waiting } in
      let before : (counter : Tracker → ℕ)
          → counter fresh ≡ 0
          → sum_below (λ i. counter (m.trackers i)) m.opened
            ≡ sum_below (λ i. counter (update m.trackers m.opened fresh i)) (suc m.opened) =
        λ counter zero_at. omega (
          arith,
          zero_at,
          ap counter (update_at m.trackers m.opened m.opened fresh (ground arith)),
          sum-before (λ i. counter (m.trackers i))
              (λ i. counter (update m.trackers m.opened fresh i)) m.opened m.opened (omega arith)
              (λ i b. ap counter (sym (update_other m.trackers m.opened i fresh (ground arith)))),
        ) in
      record {
        uploads = omega (arith, s.uploads, before (λ x. x.upload_total) refl);
        downloads = omega (arith, s.downloads, before (λ x. x.download_total) refl);
        known = λ i w. elim (Bool-cases (m.opened == i)) [
          | inl e ↦ ground arith
          | inr e ↦ omega (
            arith,
            s.known i (
                ap (λ x. is_waiting x.close_notify)
                  (sym (update_other m.trackers m.opened i fresh e))
                ∙ w),
          )
        ];
        counts = omega (arith, pend-suc m.opened m.threads (omega (arith, s.counts)));
      }

  notify_each-pend :
      (js : List ℕ)
      → (pend_thread upload_added (notify_each js) ≡ 0)
        × (pend_thread upload_counted (notify_each js) ≡ 0)
        × (pend_thread download_added (notify_each js) ≡ 0)
        × (pend_thread download_counted (notify_each js) ≡ 0)
        × (pend_thread (unknown m.opened) (notify_each js) ≡ 0)
  notify_each-pend [] = (refl, refl, refl, refl, refl)
  notify_each-pend (j ∷ js) =
      let (a, b, c, d, e) = notify_each-pend js in
      (omega (arith, a), omega (arith, b), omega (arith, c), omega (arith, d), omega (arith, e))

  step-Sums : (e : Event) → Sums none (step e m)
  step-Sums opening = opening-Sums
  step-Sums closing_all =
      let (a, b, c, d, e) = notify_each-pend m.connections in
      record {
        uploads = omega (arith, s.uploads, a, b);
        downloads = omega (arith, s.downloads, c, d);
        known = s.known;
        counts = omega (arith, s.counts, e);
      }
  step-Sums storing_upload = record {
    uploads = s.uploads;
    downloads = s.downloads;
    known = s.known;
    counts = s.counts;
  }
  step-Sums clearing_upload = record {
    uploads = s.uploads;
    downloads = s.downloads;
    known = s.known;
    counts = s.counts;
  }
  step-Sums storing_download = record {
    uploads = s.uploads;
    downloads = s.downloads;
    known = s.known;
    counts = s.counts;
  }
  step-Sums clearing_download = record {
    uploads = s.uploads;
    downloads = s.downloads;
    known = s.known;
    counts = s.counts;
  }
  step-Sums (acting n) = acting-Sums n
  step-Sums (closing i) = spawn-Sums (remove_closed i ∷ []) refl refl refl
  step-Sums (dropping i) = spawn-Sums (remove_dropped i ∷ []) refl refl refl
  step-Sums (polling i) = by_signal-Sums i [] _ refl refl refl (λ h. refl)
  step-Sums (reading i n) = checked_read i (some n)
  step-Sums (sending i n) = checked_write i (some n)
  step-Sums (writing i n) = checked_write i n
  step-Sums (receiving i n) = checked_read i n
  step-Sums (copying_read i n) = elim (Bool-cases (ltb i m.opened)) [
    | inl e ↦
        rw e
          (spawn-Sums (downloaded i n) refl (omega arith) (downloaded-Sums i n (ground (arith, e))))
    | inr e ↦ rw e s
  ]
  step-Sums (copying_write i n) = elim (Bool-cases (ltb i m.opened)) [
    | inl e ↦
        rw e (spawn-Sums (uploaded i n) (omega arith) refl (uploaded-Sums i n (ground (arith, e))))
    | inr e ↦ rw e s
  ]

run-Sums : (es : List Event) (m : Manager) → Sums none m → Sums none (run es m)
run-Sums [] m s = s
run-Sums (e ∷ es) m s = run-Sums es (step e m) (step-Sums m s e)

-- In every order of the atomic actions, the totals of the manager, with what the threads are still to add
-- to them, are the sums of the totals of all streams and UDP sessions that were ever opened, with what the
-- threads are still to count for them, modulo 2⁶⁴. Where no thread is left to do either, the totals are the
-- sums.
pub run-Adds :
    (es : List Event)
    → (((run es new).upload_total + pend upload_added (run es new).threads) % 2 ^ 64
        ≡ (sum_below (λ i. ((run es new).trackers i).upload_total) (run es new).opened
            + pend upload_counted (run es new).threads)
          % 2 ^ 64)
      × (((run es new).download_total + pend download_added (run es new).threads) % 2 ^ 64
          ≡ (sum_below (λ i. ((run es new).trackers i).download_total) (run es new).opened
              + pend download_counted (run es new).threads)
            % 2 ^ 64)
run-Adds es =
    let s = run-Sums es new (record {
      uploads = refl;
      downloads = refl;
      known = λ i w. absurd (ground (arith, w));
      counts = refl;
    }) in
    (omega (arith, s.uploads), omega (arith, s.downloads))
