-- ===== src/ProxyManager/History.antt =====
-- clash-lib/src/app/remote_content_manager/mod.rs: what a test of a proxy leaves in the registry.
use clash_rs.Prelude.{
  sym, ap, subst, is_some, unwrap_or, ◌-◌, ℕ, ◌≤◌, ltb, Option, none, some, Bool-cases, inl, inr,
  List, [], ◌∷◌, ◌++◌, ◌≡◌, refl, if◌then◌else◌, length, length-append, arith,
}
use clash_rs.Prelude.Text.{Text, text_eq, text_eq_refl}
use clash_rs.Prelude.Map
use clash_rs.Prelude.Map.{Map, get-insert}
use clash_rs.ProxyManager.{
  delay_of, alive_of, history_of, default_state, ProxyState, DelayHistory, alive, report_alive,
  delay_history, last_delay, tested, push_delay, pop_front, last,
}

-- No proxy has more than ten measurements.
pub record IsBounded (m : Map ProxyState) : Type 0 where
  pub at_most_ten : (name : Text) → length (delay_history m name) ≤ 10

length-pop_front : (hs : List DelayHistory) → length (pop_front hs) ≡ length hs - 1
length-pop_front [] = omega arith
length-pop_front (x ∷ hs) = omega arith

length-push_delay :
    (hs : List DelayHistory) (h : DelayHistory) → length hs ≤ 10 → length (push_delay hs h) ≤ 10
length-push_delay hs h b =
    ground (arith, length-append hs (h ∷ []), length-pop_front (hs ++ (h ∷ [])))

last-append : (hs : List DelayHistory) (h : DelayHistory) → last (hs ++ (h ∷ [])) ≡ some h
last-append [] h = refl
last-append (x ∷ []) h = refl
last-append (x ∷ y ∷ hs) h = last-append (y ∷ hs) h

last-pop_front :
    (x : DelayHistory) (hs : List DelayHistory) (h : DelayHistory) → last (hs ++ (h ∷ [])) ≡ some h
last-pop_front x hs h = last-append hs h

last-push_delay : (hs : List DelayHistory) (h : DelayHistory) → last (push_delay hs h) ≡ some h
last-push_delay [] h = refl
last-push_delay (x ∷ hs) h = elim (Bool-cases (ltb 10 (length ((x ∷ hs) ++ (h ∷ []))))) [
  | inl e ↦ rw e (last-append hs h)
  | inr e ↦ rw e (last-append (x ∷ hs) h)
]

abbrev after_test : Map ProxyState → Text → ℕ → Option ℕ → ProxyState
after_test m name now result = record {
  alive = is_some result;
  delay_history =
      push_delay (delay_history m name) (record { time = now; delay = unwrap_or 0 result });
}

or_default-history :
    (o : Option ProxyState) → (unwrap_or default_state o).delay_history ≡ history_of o
or_default-history none = refl
or_default-history (some s) = refl

get-tested :
    (m : Map ProxyState) (name other : Text) (now : ℕ) (result : Option ℕ)
    → Map.get (tested m name now result) other
      ≡ (if text_eq name other then some (after_test m name now result) else Map.get m other)
unfolding tested report_alive delay_history
get-tested m name other now result = elim (Bool-cases (text_eq name other)) [
  | inl e ↦
      rw
        (
          get-insert (report_alive m name (is_some result)) name _ other,
          get-insert m name _ name,
          text_eq_refl name,
          e,
          or_default-history (Map.get m name),
        )
        refl
  | inr e ↦
      rw
        (
          get-insert (report_alive m name (is_some result)) name _ other,
          get-insert m name _ other,
          e,
        )
        refl
]

-- What the views of the registry read at a proxy after a test.
history-tested :
    (m : Map ProxyState) (name other : Text) (now : ℕ) (result : Option ℕ)
    → delay_history (tested m name now result) other
      ≡ history_of
          (if text_eq name other then some (after_test m name now result) else Map.get m other)
unfolding delay_history
history-tested m name other now result = ap history_of (get-tested m name other now result)

alive-tested :
    (m : Map ProxyState) (name other : Text) (now : ℕ) (result : Option ℕ)
    → alive (tested m name now result) other
      ≡ alive_of
          (if text_eq name other then some (after_test m name now result) else Map.get m other)
unfolding alive
alive-tested m name other now result = ap alive_of (get-tested m name other now result)

history_bound :
    {m : Map ProxyState} → IsBounded m → (name : Text) → length (history_of (Map.get m name)) ≤ 10
unfolding delay_history
history_bound b name = b.at_most_ten name

last_delay-view :
    (m : Map ProxyState) (name : Text)
    → (if alive_of (Map.get m name) then delay_of (last (history_of (Map.get m name))) else none)
      ≡ last_delay m name
unfolding last_delay alive delay_history
last_delay-view m name = refl

result-back :
    (now : ℕ) (result : Option ℕ)
    → (if is_some result then some (unwrap_or 0 result) else none) ≡ result
result-back now none = refl
result-back now (some d) = refl

-- In a registry with at most ten measurements for each proxy, a test leaves at most ten.
pub tested-IsBounded :
    (m : Map ProxyState) (name : Text) (now : ℕ) (result : Option ℕ)
    → IsBounded m
    → IsBounded (tested m name now result)
tested-IsBounded m name now result b = record {
  at_most_ten = λ other. elim (Bool-cases (text_eq name other)) [
    | inl e ↦
        subst (λ hs. length hs ≤ 10) (sym (history-tested m name other now result))
          (rw e (
            length-push_delay (delay_history m name)
              (record { time = now; delay = unwrap_or 0 result }) (b.at_most_ten name)))
    | inr e ↦
        subst (λ hs. length hs ≤ 10) (sym (history-tested m name other now result))
          (rw e (history_bound b other))
  ];
}

-- After a test, the last delay of the proxy is the one that was measured, and none if the test
-- failed; the last delay of a proxy with another name is what it was.
pub last_delay-tested :
    (m : Map ProxyState) (name other : Text) (now : ℕ) (result : Option ℕ)
    → last_delay (tested m name now result) other
      ≡ (if text_eq name other then result else last_delay m other)
unfolding last_delay
last_delay-tested m name other now result = elim (Bool-cases (text_eq name other)) [
  | inl e ↦
      rw
        (
          alive-tested m name other now result,
          history-tested m name other now result,
          e,
          last-push_delay (delay_history m name)
              (record { time = now; delay = unwrap_or 0 result }),
        )
        (result-back now result)
  | inr e ↦
      rw (alive-tested m name other now result, history-tested m name other now result, e)
        (last_delay-view m other)
]
