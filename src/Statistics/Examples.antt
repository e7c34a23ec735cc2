-- ===== src/Statistics/Examples.antt =====
-- clash-lib/src/app/dispatcher: runs at concrete inputs.
use clash_rs.Prelude.{arith, ◌+◌, ◌%◌, ◌^◌, some, List, [], ◌∷◌, ◌≡◌, refl}
use clash_rs.Statistics.{
  remove_closed, sending, act, closing_all, Manager, Event, opening, acting, closing, reading,
  writing, new, run,
}
use clash_rs.Statistics.Sums.{
  sum_below, pend, upload_added, upload_counted, download_added, download_counted,
}
use clash_rs.Statistics.Closing.{run-close}
use clash_rs.Statistics.Silence.{SameBytes}
use clash_rs.Statistics.Totals.{run-Adds}

-- Two streams: the first adds what it read, and is closed behind the look of its last read for a
-- notification; the second has added what it wrote to the total of the manager only.
abbrev traffic : List Event
traffic =
    opening
    ∷ opening
    ∷ reading 0 5
    ∷ acting 0
    ∷ acting 0
    ∷ acting 0
    ∷ writing 1 (some 7)
    ∷ acting 0
    ∷ acting 0
    ∷ reading 0 9
    ∷ closing 0
    ∷ acting 0
    ∷ reading 0 4
    ∷ []

run-Adds_example :
    (((run traffic new).upload_total + pend upload_added (run traffic new).threads) % 2 ^ 64
      ≡ (sum_below (λ i. ((run traffic new).trackers i).upload_total) 2
          + pend upload_counted (run traffic new).threads)
        % 2 ^ 64)
    × (((run traffic new).download_total + pend download_added (run traffic new).threads) % 2 ^ 64
        ≡ (sum_below (λ i. ((run traffic new).trackers i).download_total) 2
            + pend download_counted (run traffic new).threads)
          % 2 ^ 64)
run-Adds_example = run-Adds traffic

traffic_uploaded :
    ((run traffic new).upload_total ≡ 7) × (((run traffic new).trackers 1).upload_total ≡ 0)
traffic_uploaded = (refl, refl)

traffic_pending : pend upload_counted (run traffic new).threads ≡ 7
traffic_pending = refl

traffic_closed : pend download_added (run traffic new).threads ≡ 9
traffic_closed = refl

abbrev busy : Manager
busy = run (opening ∷ reading 0 5 ∷ reading 0 9 ∷ acting 0 ∷ acting 0 ∷ []) new

-- A read goes on to count, and what is read and sent afterwards is not counted.
abbrev later : List Event
later = acting 0 ∷ reading 0 4 ∷ closing_all ∷ sending 0 4 ∷ []

run-close_example : SameBytes 0 busy (run later (act (remove_closed 0) busy))
run-close_example = run-close 0 later busy (omega arith) refl refl

still_counted : ((run later (act (remove_closed 0) busy)).trackers 0).download_total ≡ 9
still_counted = refl
