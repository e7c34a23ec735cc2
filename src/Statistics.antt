-- ===== src/Statistics.antt =====
-- clash-lib/src/app/dispatcher/{statistics_manager.rs, tracked.rs}: the traffic counters and the
-- tracked streams.
--
-- A stream, or a session of UDP packets, is the number of those that were opened before it, in place of
-- a random UUID. `trackers` holds the counters of each, which it and the manager share, and what its
-- receiver of the close notification sees; `connections` is the manager's map. A task that the manager
-- spawns, and what a poll does behind its look for a notification, are threads: lists of atomic
-- actions, which the events run in any order. What the inner stream does is an argument.
pub mod Sums
pub mod Acts
pub mod Silence
pub mod Totals
pub mod Closing
mod Examples
use clash_rs.Prelude.{
  ℕ, zero, suc, ltb, ◌+◌, ◌%◌, ◌^◌, ◌==◌, Bool, true, false, not, ◌&&◌, ◌||◌, Option, none, some,
  List, [], ◌∷◌, any, if◌then◌else◌,
}

-- `try_recv` of the receiver: empty, a notification, or a dropped or used sender.
pub data Signal : Type 0 where
  waiting notified gone : Signal

pub record Tracker : Type 0 where
  pub upload_total : ℕ
  pub download_total : ℕ
  pub close_notify : Signal

-- The atomic actions that are left of a task or of a poll
pub data Action : Type 0 where
  add_upload_temp add_upload_total add_download_temp add_download_total : ℕ → Action
  count_upload count_download : (i n : ℕ) → Action
  send_notify remove_closed remove_dropped : ℕ → Action

pub record Manager : Type 0 where
  pub opened : ℕ
  pub trackers : ℕ → Tracker
  pub connections : List ℕ
  pub threads : List (List Action)
  pub upload_temp : ℕ
  pub download_temp : ℕ
  pub upload_blip : ℕ
  pub download_blip : ℕ
  pub upload_total : ℕ
  pub download_total : ℕ

abbrev pub no_tracker : Tracker
no_tracker = record { upload_total = 0; download_total = 0; close_notify = gone }

-- `Manager::new`
abbrev pub new : Manager
new = record {
  opened = 0;
  trackers = λ i. no_tracker;
  connections = [];
  threads = [];
  upload_temp = 0;
  download_temp = 0;
  upload_blip = 0;
  download_blip = 0;
  upload_total = 0;
  download_total = 0;
}

abbrev pub fetch_add : ℕ → ℕ → ℕ
fetch_add a n = (a + n) % 2 ^ 64

abbrev pub is_tracked : ℕ → List ℕ → Bool
is_tracked i [] = false
is_tracked i (j ∷ js) = j == i || is_tracked i js

abbrev pub remove : ℕ → List ℕ → List ℕ
remove i [] = []
remove i (j ∷ js) = let rest = remove i js in if j == i then rest else j ∷ rest

abbrev pub update : (ℕ → Tracker) → ℕ → Tracker → ℕ → Tracker
update f i t j = if i == j then t else f j

-- `TrackedStream::new` with `track`
abbrev pub track : Manager → Manager
track m = record m {
  opened = suc m.opened;
  trackers = update m.trackers m.opened (record no_tracker { close_notify = waiting });
  connections = m.opened ∷ m.connections;
}

abbrev pub drop_sender : Tracker → Tracker
drop_sender t = record t { close_notify = gone }

abbrev pub notify : Tracker → Tracker
notify t = record t { close_notify = notified }

abbrev pub set_tracker : ℕ → Tracker → Manager → Manager
set_tracker i t m = record m { trackers = update m.trackers i t }

-- A task or a poll that goes on with these actions
abbrev pub spawn : List Action → Manager → Manager
spawn actions m = record m { threads = actions ∷ m.threads }

-- `untrack`, when a UDP session is dropped, or a stream in a build for Linux with the feature
-- `zero_copy`, and `close`: the task that they spawn
abbrev pub untrack : ℕ → Manager → Manager
untrack i m = spawn (remove_dropped i ∷ []) m

abbrev pub close : ℕ → Manager → Manager
close i m = spawn (remove_closed i ∷ []) m

abbrev pub notify_each : List ℕ → List Action
notify_each [] = []
notify_each (i ∷ is) = send_notify i ∷ notify_each is

-- The map is emptied, and the notifications are sent one by one.
abbrev pub close_all : Manager → Manager
close_all m = spawn (notify_each m.connections) (record m { connections = [] })

-- `push_downloaded` and `push_uploaded`, and then the addition to the total of the stream
abbrev pub downloaded : ℕ → ℕ → List Action
downloaded i n = add_download_temp n ∷ (add_download_total n ∷ (count_download i n ∷ []))

abbrev pub uploaded : ℕ → ℕ → List Action
uploaded i n = add_upload_temp n ∷ (add_upload_total n ∷ (count_upload i n ∷ []))

-- One atomic action
abbrev pub act : Action → Manager → Manager
act (add_upload_temp n) m = record m { upload_temp = fetch_add m.upload_temp n }
act (add_upload_total n) m = record m { upload_total = fetch_add m.upload_total n }
act (add_download_temp n) m = record m { download_temp = fetch_add m.download_temp n }
act (add_download_total n) m = record m { download_total = fetch_add m.download_total n }
act (count_upload i n) m =
    let t = m.trackers i in set_tracker i (record t { upload_total = fetch_add t.upload_total n }) m
act (count_download i n) m =
    let t = m.trackers i in
    set_tracker i (record t { download_total = fetch_add t.download_total n }) m
act (send_notify i) m = set_tracker i (notify (m.trackers i)) m
act (remove_closed i) m =
    if is_tracked i m.connections
    then record m {
      trackers = update m.trackers i (notify (m.trackers i));
      connections = remove i m.connections;
    }
    else m
act (remove_dropped i) m =
    if is_tracked i m.connections
    then record m {
      trackers = update m.trackers i (drop_sender (m.trackers i));
      connections = remove i m.connections;
    }
    else m

-- The next action of the thread of that number, and the threads behind it
abbrev pub next_action : ℕ → List (List Action) → Option Action × List (List Action)
next_action n [] = (none, [])
next_action zero ([] ∷ ts) = (none, ts)
next_action zero ((a ∷ rest) ∷ ts) = (some a, rest ∷ ts)
next_action (suc n) (t ∷ ts) = let (a, rest) = next_action n ts in (a, t ∷ rest)

abbrev pub act_next : Option Action × List (List Action) → Manager → Manager
act_next (none, ts) m = record m { threads = ts }
act_next (some a, ts) m = act a (record m { threads = ts })

-- A poll looks for a notification with `try_recv`, and goes on only when there is none.
abbrev pub by_signal : ℕ → List Action → Signal → Manager → Manager
by_signal i actions waiting m = spawn actions m
by_signal i actions notified m = set_tracker i (drop_sender (m.trackers i)) m
by_signal i actions gone m = m

abbrev pub checked : ℕ → List Action → Manager → Manager
checked i actions m = by_signal i actions (m.trackers i).close_notify m

-- `filled` is the length of the filled part of the buffer afterwards.
abbrev pub poll_read : ℕ → ℕ → Manager → Manager
poll_read i filled m = checked i (downloaded i filled) m

abbrev pub if_some : (ℕ → List Action) → Option ℕ → List Action
if_some f none = []
if_some f (some n) = f n

-- `none` is a pending write or an error.
abbrev pub poll_write : ℕ → Option ℕ → Manager → Manager
poll_write i written m = checked i (if_some (uploaded i) written) m

-- The polls that count nothing
abbrev pub poll_other : ℕ → Manager → Manager
poll_other i m = checked i [] m

-- `TrackedDatagram`: a packet that the inner stream yields, and one that is sent
abbrev pub poll_next : ℕ → Option ℕ → Manager → Manager
poll_next i packet m = checked i (if_some (downloaded i) packet) m

abbrev pub start_send : ℕ → ℕ → Manager → Manager
start_send i n m = checked i (uploaded i n) m

-- `ReadTracker` and `WriteTracker` of the zero-copy relay, which do not look for a notification
abbrev pub track_read : ℕ → ℕ → Manager → Manager
track_read i n m = if ltb i m.opened then spawn (downloaded i n) m else m

abbrev pub track_write : ℕ → ℕ → Manager → Manager
track_write i n m = if ltb i m.opened then spawn (uploaded i n) m else m

-- The steps of a round of `kick_off`
abbrev pub store_upload_blip : Manager → Manager
store_upload_blip m = record m { upload_blip = m.upload_temp }

abbrev pub clear_upload_temp : Manager → Manager
clear_upload_temp m = record m { upload_temp = 0 }

abbrev pub store_download_blip : Manager → Manager
store_download_blip m = record m { download_blip = m.download_temp }

abbrev pub clear_download_temp : Manager → Manager
clear_download_temp m = record m { download_temp = 0 }

abbrev pub now : Manager → ℕ × ℕ
now m = (m.upload_blip, m.download_blip)

-- Not called by the program
abbrev pub reset_statistic : Manager → Manager
reset_statistic m = record m {
  upload_temp = 0;
  download_temp = 0;
  upload_blip = 0;
  download_blip = 0;
  upload_total = 0;
  download_total = 0;
}

abbrev pub with_trackers : (ℕ → Tracker) → List ℕ → List (ℕ × Tracker)
with_trackers trackers [] = []
with_trackers trackers (i ∷ is) = (i, trackers i) ∷ with_trackers trackers is

-- The totals and the streams that are tracked; the memory that the process uses is left out.
abbrev pub snapshot : Manager → ℕ × ℕ × List (ℕ × Tracker)
snapshot m = (m.download_total, m.upload_total, with_trackers m.trackers m.connections)

pub data Event : Type 0 where
  opening closing_all : Event
  storing_upload clearing_upload storing_download clearing_download : Event
  acting closing dropping polling : ℕ → Event
  reading sending copying_read copying_write : (i n : ℕ) → Event
  writing receiving : (i : ℕ) (n : Option ℕ) → Event

abbrev pub step : Event → Manager → Manager
step opening m = track m
step closing_all m = close_all m
step storing_upload m = store_upload_blip m
step clearing_upload m = clear_upload_temp m
step storing_download m = store_download_blip m
step clearing_download m = clear_download_temp m
step (acting n) m = act_next (next_action n m.threads) m
step (closing i) m = close i m
step (dropping i) m = untrack i m
step (polling i) m = poll_other i m
step (reading i n) m = poll_read i n m
step (sending i n) m = start_send i n m
step (copying_read i n) m = track_read i n m
step (copying_write i n) m = track_write i n m
step (writing i n) m = poll_write i n m
step (receiving i n) m = poll_next i n m

-- Any order of the events
abbrev pub run : List Event → Manager → Manager
run [] m = m
run (e ∷ es) m = run es (step e m)
