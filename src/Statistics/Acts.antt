-- ===== src/Statistics/Acts.antt =====
-- clash-lib/src/app/dispatcher/{statistics_manager.rs, tracked.rs}: an atomic action keeps the sums.
use clash_rs.Prelude.{some, none, Option, List, ◌<◌, Bool-cases, inl, inr, refl, arith}
use clash_rs.Statistics.{
  Manager, Action, add_upload_temp, add_upload_total, add_download_temp, add_download_total,
  count_upload, count_download, send_notify, remove_closed, remove_dropped, fetch_add, is_tracked,
  drop_sender, notify, remove, act, act_next,
}
use clash_rs.Statistics.Sums.{Sums, quiet, silenced, changed, known_still}

act-Sums : (a : Action) (m : Manager) → Sums (some a) m → Sums none (act a m)
act-Sums (add_upload_temp n) m s = record {
  uploads = omega (arith, s.uploads);
  downloads = omega (arith, s.downloads);
  known = s.known;
  counts = omega (arith, s.counts);
}
act-Sums (add_upload_total n) m s = record {
  uploads = omega (arith, s.uploads);
  downloads = omega (arith, s.downloads);
  known = s.known;
  counts = omega (arith, s.counts);
}
act-Sums (add_download_temp n) m s = record {
  uploads = omega (arith, s.uploads);
  downloads = omega (arith, s.downloads);
  known = s.known;
  counts = omega (arith, s.counts);
}
act-Sums (add_download_total n) m s = record {
  uploads = omega (arith, s.uploads);
  downloads = omega (arith, s.downloads);
  known = s.known;
  counts = omega (arith, s.counts);
}
act-Sums (count_upload k n) m s =
    let t = m.trackers k in
    let t' = record t { upload_total = fetch_add t.upload_total n } in
    let below : k < m.opened = ground (arith, s.counts) in
    record {
      uploads =
          omega (arith, s.uploads, changed m.trackers m.opened k t' (λ x. x.upload_total) below);
      downloads =
          omega
            (arith, s.downloads, changed m.trackers m.opened k t' (λ x. x.download_total) below);
      known = known_still m k t' below s.known;
      counts = omega (arith, s.counts);
    }
act-Sums (count_download k n) m s =
    let t = m.trackers k in
    let t' = record t { download_total = fetch_add t.download_total n } in
    let below : k < m.opened = ground (arith, s.counts) in
    record {
      uploads =
          omega (arith, s.uploads, changed m.trackers m.opened k t' (λ x. x.upload_total) below);
      downloads =
          omega
            (arith, s.downloads, changed m.trackers m.opened k t' (λ x. x.download_total) below);
      known = known_still m k t' below s.known;
      counts = omega (arith, s.counts);
    }
act-Sums (send_notify k) m s =
    silenced (some (send_notify k)) m k (notify (m.trackers k)) m.connections s refl refl refl refl
      refl refl refl
act-Sums (remove_closed k) m s = elim (Bool-cases (is_tracked k m.connections)) [
  | inl e ↦ rw e (
      silenced (some (remove_closed k)) m k (notify (m.trackers k)) (remove k m.connections) s refl
        refl refl refl refl refl refl)
  | inr e ↦ rw e (
      quiet (some (remove_closed k)) m m.trackers m.connections s refl refl refl refl (λ i. refl)
        (λ i. refl) (λ i w. w))
]
act-Sums (remove_dropped k) m s = elim (Bool-cases (is_tracked k m.connections)) [
  | inl e ↦ rw e (
      silenced (some (remove_dropped k)) m k (drop_sender (m.trackers k)) (remove k m.connections) s
        refl refl refl refl refl refl refl)
  | inr e ↦ rw e (
      quiet (some (remove_dropped k)) m m.trackers m.connections s refl refl refl refl (λ i. refl)
        (λ i. refl) (λ i w. w))
]

pub act_next-Sums :
    (m : Manager) (next : Option Action) (ts : List (List Action))
    → Sums next (record m { threads = ts })
    → Sums none (act_next (next, ts) m)
act_next-Sums m none ts s = s
act_next-Sums m (some a) ts s = act-Sums a (record m { threads = ts }) s
