-- ===== src/ProxyManager.antt =====
-- clash-lib/src/app/remote_content_manager/mod.rs: the latency registry.
--
-- `url_test` is cut in two: the request is I/O, and `tested` is what it does to the state with the
-- outcome, as if no other task ran between its two locks. A duration is its number of
-- nanoseconds.
pub mod History
use clash_rs.Prelude.{
  is_some, ℕ, suc, ◌+◌, ltb, ◌==◌, Bool, true, false, Option, none, some, unwrap_or, List, [], ◌∷◌,
  ◌++◌, if◌then◌else◌, length,
}
use clash_rs.Prelude.Text.{Text}
use clash_rs.Prelude.Map
use clash_rs.Prelude.Map.{Map}

pub record DelayHistory : Type 0 where
  pub time : ℕ
  pub delay : ℕ

pub record ProxyState : Type 0 where
  pub alive : Bool
  pub delay_history : List DelayHistory

-- `ProxyState::default`
abbrev pub default_state : ProxyState
default_state = record { alive = false; delay_history = [] }

-- `state.entry(name).or_default()`, changed and written back.
abbrev pub entry : Map ProxyState → Text → ProxyState
entry m name = unwrap_or default_state (Map.get m name)

-- An unknown proxy counts as alive.
abbrev pub alive_of : Option ProxyState → Bool
alive_of none = true
alive_of (some s) = s.alive

unfoldable pub alive : Map ProxyState → Text → Bool
alive m name = alive_of (Map.get m name)

unfoldable pub report_alive : Map ProxyState → Text → Bool → Map ProxyState
report_alive m name b = Map.insert m name (record (entry m name) { alive = b })

abbrev pub history_of : Option ProxyState → List DelayHistory
history_of none = []
history_of (some s) = s.delay_history

unfoldable pub delay_history : Map ProxyState → Text → List DelayHistory
delay_history m name = history_of (Map.get m name)

abbrev pub last {ℓ} : {A : Type ℓ} → List A → Option A
last [] = none
last (x ∷ []) = some x
last (x ∷ y ∷ xs) = last (y ∷ xs)

abbrev pub delay_of : Option DelayHistory → Option ℕ
delay_of none = none
delay_of (some h) = some h.delay

unfoldable pub last_delay : Map ProxyState → Text → Option ℕ
unfolding alive delay_history
last_delay m name = if alive m name then delay_of (last (delay_history m name)) else none

abbrev pub pop_front {ℓ} : {A : Type ℓ} → List A → List A
pop_front [] = []
pop_front (x ∷ xs) = xs

-- `push_back`, and `pop_front` when the history has become longer than ten.
abbrev pub push_delay : List DelayHistory → DelayHistory → List DelayHistory
push_delay hs h =
    let longer = hs ++ (h ∷ []) in if ltb 10 (length longer) then pop_front longer else longer

-- The end of `url_test`, with the delay that was measured or nothing where the test failed.
unfoldable pub tested : Map ProxyState → Text → ℕ → Option ℕ → Map ProxyState
unfolding report_alive
tested m name now result =
    let m' = report_alive m name (is_some result) in
    let s = entry m' name in
    Map.insert m' name (record s {
      delay_history =
          push_delay s.delay_history (record { time = now; delay = unwrap_or 0 result });
    })

abbrev pub count_failed : List DelayHistory → ℕ
count_failed [] = 0
count_failed (h ∷ hs) = let rest = count_failed hs in if h.delay == 0 then suc rest else rest

-- The two numbers whose quotient is the packet loss.
unfoldable pub get_packet_loss : Map ProxyState → Text → Option (ℕ × ℕ)
unfolding delay_history
get_packet_loss m name = elim (delay_history m name) [
  | [] ↦ none
  | h ∷ hs ↦ some (count_failed (h ∷ hs), length (h ∷ hs))
]
