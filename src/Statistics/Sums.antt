-- ===== src/Statistics/Sums.antt =====
-- What the streams count, and what the threads are still to count.
use clash_rs.Prelude.{
  if◌then◌else◌, some, none, Option, List, [], ◌∷◌, sym, ap, ◌∙◌, ℕ, zero, suc, ◌+◌, ◌%◌, ◌^◌, ◌≤◌,
  ◌<◌, ◌==◌, ltb, Bool, true, false, Bool-cases, inl, inr, ◌≡◌, refl, arith,
}
use clash_rs.Statistics.{
  Signal, waiting, notified, gone, Tracker, Manager, Action, add_upload_temp, add_upload_total,
  add_download_temp, add_download_total, count_upload, count_download, send_notify, remove_closed,
  remove_dropped, update, next_action,
}

abbrev pub sum_below : (ℕ → ℕ) → ℕ → ℕ
sum_below f zero = 0
sum_below f (suc n) = sum_below f n + f n

pub sum-same : (f g : ℕ → ℕ) (n : ℕ) → ((i : ℕ) → f i ≡ g i) → sum_below f n ≡ sum_below g n
sum-same f g zero h = refl
sum-same f g (suc n) h = omega (arith, sum-same f g n h, h n)

pub sum-before :
    (f g : ℕ → ℕ) (n m : ℕ) → n ≤ m → ((i : ℕ) → i < m → f i ≡ g i) → sum_below f n ≡ sum_below g n
sum-before f g zero m h same = refl
sum-before f g (suc n) m h same =
    omega (arith, sum-before f g n m (omega arith) same, same n (omega arith))

-- A change at one place below `n`
sum-change :
    (f g : ℕ → ℕ) (k n : ℕ)
    → k < n
    → ((i : ℕ) → (k == i) ≡ false → f i ≡ g i)
    → sum_below f n + g k ≡ sum_below g n + f k
sum-change f g k zero h same = absurd (omega arith)
sum-change f g k (suc n) h same = elim (Bool-cases (k == n)) [
  | inl e ↦
      let eq : k ≡ n = ground arith in
      rw eq (omega (arith, sum-before f g n n (omega arith) (λ i b. same i (ground arith))))
  | inr e ↦ omega (arith, sum-change f g k n (ground arith) same, same n e)
]

abbrev pub is_waiting : Signal → Bool
is_waiting waiting = true
is_waiting notified = false
is_waiting gone = false

module _ (ts : ℕ → Tracker) (k i : ℕ) (t : Tracker) where
  pub update_at : (k == i) ≡ true → update ts k t i ≡ t
  update_at e = rw e refl

  pub update_other : (k == i) ≡ false → update ts k t i ≡ ts i
  update_other e = rw e refl

-- A change of one stream that keeps a counter
pub same_counter :
    (counter : Tracker → ℕ) (ts : ℕ → Tracker) (k : ℕ) (t : Tracker)
    → counter t ≡ counter (ts k)
    → (i : ℕ) → counter (ts i) ≡ counter (update ts k t i)
same_counter counter ts k t same i = elim (Bool-cases (k == i)) [
  | inl e ↦
      let eq : k ≡ i = ground arith in
      ap (λ j. counter (ts j)) (sym eq) ∙ sym same ∙ ap counter (sym (update_at ts k i t e))
  | inr e ↦ ap counter (sym (update_other ts k i t e))
]

-- What the threads are still to do, by what each action does
abbrev pub pend_thread : (Action → ℕ) → List Action → ℕ
pend_thread f [] = 0
pend_thread f (a ∷ rest) = f a + pend_thread f rest

abbrev pub pend : (Action → ℕ) → List (List Action) → ℕ
pend f [] = 0
pend f (t ∷ ts) = pend_thread f t + pend f ts

abbrev pub of_next : (Action → ℕ) → Option Action → ℕ
of_next f none = 0
of_next f (some a) = f a

pub next_action-pend :
    (f : Action → ℕ) (n : ℕ) (ts : List (List Action))
    → pend f ts ≡ of_next f (next_action n ts).0 + pend f (next_action n ts).1
next_action-pend f n [] = refl
next_action-pend f zero ([] ∷ ts) = refl
next_action-pend f zero ((a ∷ rest) ∷ ts) = omega arith
next_action-pend f (suc n) (t ∷ ts) = omega (arith, next_action-pend f n ts)

abbrev pub upload_added : Action → ℕ
upload_added (add_upload_total n) = n
upload_added _ = 0

abbrev pub download_added : Action → ℕ
download_added (add_download_total n) = n
download_added _ = 0

abbrev pub upload_counted : Action → ℕ
upload_counted (count_upload i n) = n
upload_counted _ = 0

abbrev pub download_counted : Action → ℕ
download_counted (count_download i n) = n
download_counted _ = 0

-- The actions that count for a stream that is not yet opened
abbrev pub unknown : ℕ → Action → ℕ
unknown n (count_upload i k) = if ltb i n then 0 else 1
unknown n (count_download i k) = if ltb i n then 0 else 1
unknown n _ = 0

unknown-suc : (n : ℕ) (a : Action) → unknown n a ≡ 0 → unknown (suc n) a ≡ 0
unknown-suc n (count_upload i k) h = ground (arith, h)
unknown-suc n (count_download i k) h = ground (arith, h)
unknown-suc n (add_upload_temp k) h = refl
unknown-suc n (add_upload_total k) h = refl
unknown-suc n (add_download_temp k) h = refl
unknown-suc n (add_download_total k) h = refl
unknown-suc n (send_notify k) h = refl
unknown-suc n (remove_closed k) h = refl
unknown-suc n (remove_dropped k) h = refl

pub pend_thread-suc :
    (n : ℕ) (t : List Action) → pend_thread (unknown n) t ≡ 0 → pend_thread (unknown (suc n)) t ≡ 0
pend_thread-suc n [] h = refl
pend_thread-suc n (a ∷ rest) h =
    omega (arith, unknown-suc n a (omega (arith, h)), pend_thread-suc n rest (omega (arith, h)))

pub pend-suc :
    (n : ℕ) (ts : List (List Action)) → pend (unknown n) ts ≡ 0 → pend (unknown (suc n)) ts ≡ 0
pend-suc n [] h = refl
pend-suc n (t ∷ ts) h =
    omega (arith, pend_thread-suc n t (omega (arith, h)), pend-suc n ts (omega (arith, h)))

-- The totals of the streams and of the manager, with what the threads and the next action are still to
-- add; only streams that are opened wait for a notification or are counted for.
pub record Sums (next : Option Action) (m : Manager) : Type 0 where
  pub uploads :
      (m.upload_total + (of_next upload_added next + pend upload_added m.threads)) % 2 ^ 64
      ≡ (sum_below (λ i. (m.trackers i).upload_total) m.opened
          + (of_next upload_counted next + pend upload_counted m.threads))
        % 2 ^ 64
  pub downloads :
      (m.download_total + (of_next download_added next + pend download_added m.threads)) % 2 ^ 64
      ≡ (sum_below (λ i. (m.trackers i).download_total) m.opened
          + (of_next download_counted next + pend download_counted m.threads))
        % 2 ^ 64
  pub known : (i : ℕ) → is_waiting (m.trackers i).close_notify ≡ true → i < m.opened
  pub counts : of_next (unknown m.opened) next + pend (unknown m.opened) m.threads ≡ 0

-- The trackers change, but no counter, and no stream begins to wait.
pub quiet :
    (next : Option Action) (m : Manager) (ts : ℕ → Tracker) (js : List ℕ)
    → Sums next m
    → of_next upload_added next ≡ 0
    → of_next upload_counted next ≡ 0
    → of_next download_added next ≡ 0
    → of_next download_counted next ≡ 0
    → ((i : ℕ) → (m.trackers i).upload_total ≡ (ts i).upload_total)
    → ((i : ℕ) → (m.trackers i).download_total ≡ (ts i).download_total)
    → ((i : ℕ)
        → is_waiting (ts i).close_notify ≡ true
        → is_waiting (m.trackers i).close_notify ≡ true)
    → Sums none (record m { trackers = ts; connections = js })
quiet next m ts js s a b c d same_up same_down waits = record {
  uploads = omega (
    arith,
    s.uploads,
    a,
    b,
    sum-same (λ i. (m.trackers i).upload_total) (λ i. (ts i).upload_total) m.opened same_up,
  );
  downloads = omega (
    arith,
    s.downloads,
    c,
    d,
    sum-same (λ i. (m.trackers i).download_total) (λ i. (ts i).download_total) m.opened same_down,
  );
  known = λ i w. s.known i (waits i w);
  counts = omega (arith, s.counts);
}

pub waits_less :
    (ts : ℕ → Tracker) (k : ℕ) (t : Tracker)
    → is_waiting t.close_notify ≡ false
    → (i : ℕ) → is_waiting (update ts k t i).close_notify ≡ true
    → is_waiting (ts i).close_notify ≡ true
waits_less ts k t silent i w = elim (Bool-cases (k == i)) [
  | inl e ↦
      let w' : is_waiting t.close_notify ≡ true =
        ap (λ x. is_waiting x.close_notify) (sym (update_at ts k i t e)) ∙ w in
      absurd (ground (arith, silent, w'))
  | inr e ↦ ap (λ x. is_waiting x.close_notify) (sym (update_other ts k i t e)) ∙ w
]

-- One stream that keeps its counters and waits no longer
pub silenced :
    (next : Option Action) (m : Manager) (k : ℕ) (t : Tracker) (js : List ℕ)
    → Sums next m
    → of_next upload_added next ≡ 0
    → of_next upload_counted next ≡ 0
    → of_next download_added next ≡ 0
    → of_next download_counted next ≡ 0
    → t.upload_total ≡ (m.trackers k).upload_total
    → t.download_total ≡ (m.trackers k).download_total
    → is_waiting t.close_notify ≡ false
    → Sums none (record m { trackers = update m.trackers k t; connections = js })
silenced next m k t js s a b c d up down silent =
    quiet next m (update m.trackers k t) js s a b c d
      (same_counter (λ x. x.upload_total) m.trackers k t up)
      (same_counter (λ x. x.download_total) m.trackers k t down) (waits_less m.trackers k t silent)

-- The sum of one counter when stream `k` has it changed
pub changed :
    (ts : ℕ → Tracker) (n k : ℕ) (t : Tracker) (counter : Tracker → ℕ)
    → k < n
    → sum_below (λ i. counter (ts i)) n + counter t
      ≡ sum_below (λ i. counter (update ts k t i)) n + counter (ts k)
changed ts n k t counter h = omega (
  arith,
  ap counter (update_at ts k k t (ground arith)),
  sum-change (λ i. counter (ts i)) (λ i. counter (update ts k t i)) k n h
      (λ i e. ap counter (sym (update_other ts k i t e))),
)

pub known_still :
    (m : Manager) (k : ℕ) (t : Tracker)
    → k < m.opened
    → ((i : ℕ) → is_waiting (m.trackers i).close_notify ≡ true → i < m.opened)
    → (i : ℕ) → is_waiting (update m.trackers k t i).close_notify ≡ true
    → i < m.opened
known_still m k t h known i w = elim (Bool-cases (k == i)) [
  | inl e ↦ ground (arith, h)
  | inr e ↦
      known i (ap (λ x. is_waiting x.close_notify) (sym (update_other m.trackers k i t e)) ∙ w)
]
