-- ===== src/PushQueue/Window.antt =====
-- frontend/src/sync/push-queue.ts: how long a document that keeps changing waits for its push.
use lunch_loxs.Prelude.{
  ℕ, ◌+◌, ◌≤◌, ◌≡◌, ◌⊎◌, inl, inr, sym, ap, subst, true, false, List, [], ◌∷◌, none, some, arith,
  Text, text_eq, text_eq_iff, text_eq_refl, leb, Bool-cases, Option-cases, or_default, min, ◌-◌,
}
use lunch_loxs.Prelude.Maps
use lunch_loxs.Prelude.Maps.{get-set, get-remove}
use lunch_loxs.Prelude.Sets.{has, has-append}
use lunch_loxs.Platform.{Platform}
use lunch_loxs.World.{World, in_queue}
use lunch_loxs.Client.{is_connected}
use lunch_loxs.PushQueue.{debounce_ms, max_wait_ms}
use lunch_loxs.PushQueue.Marks.{
  cancel_timer, first_time, note_first, fire_debounce, schedule_push, mark_dirty, fire_timer,
}
use lunch_loxs.PushQueue.Events.{Event, tick, marks, timer, handle, handle_all}

-- Time passes, documents change, and debounce timers fire.
pub data Typing (p : Platform) : Type 0 where
  waits : ℕ → Typing p
  changes fires : Text → Typing p

delay_bound :
    (now first : ℕ)
    → leb max_wait_ms (now - first) ≡ false
    → now + min debounce_ms (max_wait_ms - (now - first)) ≤ first + max_wait_ms
delay_bound now first l = ground (arith, l)

module _ {p : Platform} where
  unfoldable pub event_of : Typing p → Event p
  event_of (waits n) = tick n
  event_of (changes d) = marks d
  event_of (fires d) = timer d

  unfoldable pub events_of : List (Typing p) → List (Event p)
  unfolding event_of
  events_of [] = []
  events_of (t ∷ ts) = event_of t ∷ events_of ts

  -- The timer of `d` fires no later than the longest wait after `first`, its first change.
  pub record IsWaiting (d : Text) (first : ℕ) (w : World p) : Type 0 where
    pub at : ℕ
    pub set : Maps.get d w.queue.timers ≡ some at
    pub noted : Maps.get d w.queue.first_change ≡ some first
    pub bound : at ≤ first + max_wait_ms
    pub up : is_connected w ≡ true

  abbrev pub IsDueBy : Text → ℕ → World p → Type 0
  IsDueBy d first w = (has d w.started ≡ true) ⊎ IsWaiting d first w

  fire_started :
      (e d : Text) (w : World p) → has d w.started ≡ true → has d (fire_debounce e w).started ≡ true
  unfolding fire_debounce has
  fire_started e d w h = ground (arith, h, has-append d w.started (e ∷ []))

  note_started :
      (e d : Text) (w : World p) → has d w.started ≡ true → has d (note_first e w).started ≡ true
  unfolding note_first
  note_started e d w h = ground (arith, h)

  schedule_started :
      (e d : Text) (w : World p) → has d w.started ≡ true → has d (schedule_push e w).started ≡ true
  unfolding schedule_push
  schedule_started e d w h =
      ground (arith, note_started e d w h, fire_started e d (note_first e w) (note_started e d w h))

  fire_begun :
      (d : Text) (w : World p) → is_connected w ≡ true → has d (fire_debounce d w).started ≡ true
  unfolding fire_debounce is_connected has
  fire_begun d w h = ground (arith, h, has-append d w.started (d ∷ []), text_eq_refl d)

  fire_other :
      (e d : Text) (first : ℕ) (w : World p)
      → text_eq e d ≡ false
      → IsWaiting d first w
      → IsWaiting d first (fire_debounce e w)
  unfolding fire_debounce cancel_timer is_connected
  fire_other e d first w l h = record {
    at = h.at;
    set = ground (arith, l, h.set, get-remove e d w.queue.timers);
    noted = ground (arith, l, h.noted, get-remove e d w.queue.first_change);
    bound = h.bound;
    up = ground (arith, h.up);
  }

  fire-IsDueBy :
      (e d : Text) (first : ℕ) (w : World p)
      → IsDueBy d first w
      → IsDueBy d first (fire_debounce e w)
  fire-IsDueBy e d first w (inl h) = inl (fire_started e d w h)
  fire-IsDueBy e d first w (inr h) = elim (Bool-cases (text_eq e d)) [
    | inl l ↦ inl (
        subst (λ x. has d (fire_debounce x w).started ≡ true) (sym ((text_eq_iff e d).0 l))
          (fire_begun d w h.up))
    | inr l ↦ inr (fire_other e d first w l h)
  ]

  note-IsWaiting :
      (e d : Text) (first : ℕ) (w : World p)
      → IsWaiting d first w
      → IsWaiting d first (note_first e w)
  unfolding note_first is_connected
  note-IsWaiting e d first w h = record {
    at = h.at;
    set = ground (arith, h.set);
    noted = ground (arith, h.noted, text_eq_iff e d, get-set e d w.now w.queue.first_change);
    bound = h.bound;
    up = ground (arith, h.up);
  }

  note-IsDueBy :
      (e d : Text) (first : ℕ) (w : World p) → IsDueBy d first w → IsDueBy d first (note_first e w)
  note-IsDueBy e d first w (inl h) = inl (note_started e d w h)
  note-IsDueBy e d first w (inr h) = inr (note-IsWaiting e d first w h)

  -- A timer that is set anew.
  set-IsWaiting :
      (e d : Text) (first at : ℕ) (w : World p)
      → (text_eq e d ≡ true → at ≤ first + max_wait_ms)
      → IsWaiting d first w
      → IsWaiting d first (in_queue (λ q. record q { timers = Maps.set e at q.timers }) w)
  unfolding is_connected
  set-IsWaiting e d first at w le h = elim (Bool-cases (text_eq e d)) [
    | inl l ↦ record {
      at = at;
      set = ground (arith, l, get-set e d at w.queue.timers);
      noted = h.noted;
      bound = le l;
      up = h.up;
    }
    | inr l ↦ record {
      at = h.at;
      set = ground (arith, l, h.set, get-set e d at w.queue.timers);
      noted = h.noted;
      bound = h.bound;
      up = h.up;
    }
  ]

  first_of :
      (e d : Text) (first : ℕ) (w : World p)
      → text_eq e d ≡ true
      → IsWaiting d first w
      → first_time e w ≡ first
  first_of e d first w l h = rw ((text_eq_iff e d).0 l) (ap (λ o. or_default o w.now) h.noted)

  fire_timer-IsDueBy :
      (e d : Text) (first : ℕ) (w : World p) → IsDueBy d first w → IsDueBy d first (fire_timer e w)
  unfolding fire_timer
  fire_timer-IsDueBy e d first w h = elim (Option-cases (Maps.get e w.queue.timers)) [
    | inl off ↦ rw (off, fire_timer) h
    | inr (t, at) ↦ elim (Bool-cases (leb t w.now)) [
      | inl due ↦ rw (at, fire_timer) (rw due (fire-IsDueBy e d first w h))
      | inr early ↦ rw (at, fire_timer) (rw early h)
    ]
  ]

  schedule-IsDueBy :
      (e d : Text) (first : ℕ) (w : World p)
      → IsDueBy d first w
      → IsDueBy d first (schedule_push e w)
  unfolding schedule_push has
  schedule-IsDueBy e d first w (inl h) = inl (schedule_started e d w h)
  schedule-IsDueBy e d first w (inr h) =
      let noted = note-IsWaiting e d first w h in
      elim (Bool-cases (leb max_wait_ms (w.now - first_time e w))) [
        | inl late ↦ rw (schedule_push, late) (fire-IsDueBy e d first (note_first e w) (inr noted))
        | inr early ↦
            rw (schedule_push, early)
              (inr (
                set-IsWaiting e d first _ (note_first e w)
                  (λ l.
                    ground
                      (arith, first_of e d first w l h, delay_bound w.now (first_time e w) early))
                  noted))
      ]

  handle-IsDueBy :
      (turn : World p → World p) (t : Typing p) (d : Text) (first : ℕ) (w : World p)
      → IsDueBy d first w
      → IsDueBy d first (handle turn (event_of t) w)
  unfolding handle event_of mark_dirty is_connected
  handle-IsDueBy turn (waits n) d first w (inl h) = inl h
  handle-IsDueBy turn (waits n) d first w (inr h) =
      inr (record { at = h.at; set = h.set; noted = h.noted; bound = h.bound; up = h.up })
  handle-IsDueBy turn (changes e) d first w (inl h) = schedule-IsDueBy e d first _ (inl h)
  handle-IsDueBy turn (changes e) d first w (inr h) =
      schedule-IsDueBy e d first _
        (inr (record { at = h.at; set = h.set; noted = h.noted; bound = h.bound; up = h.up }))
  handle-IsDueBy turn (fires e) d first w h = fire_timer-IsDueBy e d first w h

  handle_all-IsDueBy :
      (turn : World p → World p) (ts : List (Typing p)) (d : Text) (first : ℕ) (w : World p)
      → IsDueBy d first w
      → IsDueBy d first (handle_all turn (events_of ts) w)
  unfolding handle_all events_of
  handle_all-IsDueBy turn [] d first w h = h
  handle_all-IsDueBy turn (t ∷ ts) d first w h =
      handle_all-IsDueBy turn ts d first _ (handle-IsDueBy turn t d first w h)

  first_change-IsWaiting :
      (d : Text) (w : World p)
      → Maps.get d w.queue.first_change ≡ none
      → is_connected w ≡ true
      → IsWaiting d w.now (schedule_push d w)
  unfolding schedule_push note_first is_connected
  first_change-IsWaiting d w fresh up = record {
    at = w.now + debounce_ms;
    set = ground (arith, fresh, text_eq_refl d, get-set d d (w.now + debounce_ms) w.queue.timers);
    noted = ground (arith, fresh, text_eq_refl d, get-set d d w.now w.queue.first_change);
    bound = omega arith;
    up = ground (arith, up, fresh);
  }

  due-started :
      (d : Text) (first : ℕ) (w : World p)
      → IsDueBy d first w
      → first + max_wait_ms ≤ w.now
      → has d (fire_timer d w).started ≡ true
  unfolding fire_timer
  due-started d first w (inl h) over = elim (Option-cases (Maps.get d w.queue.timers)) [
    | inl off ↦ rw (off, fire_timer) h
    | inr (t, at) ↦ elim (Bool-cases (leb t w.now)) [
      | inl due ↦ rw (at, fire_timer) (rw due (fire_started d d w h))
      | inr early ↦ rw (at, fire_timer) (rw early h)
    ]
  ]
  due-started d first w (inr h) over =
      let due : leb h.at w.now ≡ true = ground (arith, h.bound, over) in
      rw (h.set, fire_timer) (rw due (fire_begun d w h.up))

  -- From the first change of a document with no push under way, on an open socket, whatever time
  -- passes, whatever documents change and whichever timers fire: the push of the document has started,
  -- or its timer is set to no later than 1500 ms after that first change; and once those 1500 ms are
  -- over, its timer's callback leaves its push started.
  pub changes-IsDueBy :
      (turn : World p → World p) (d : Text) (ts : List (Typing p)) (w : World p)
      → Maps.get d w.queue.first_change ≡ none
      → has d w.started ≡ false
      → is_connected w ≡ true
      → let w' = handle_all turn (events_of (changes d ∷ ts)) w in
        IsDueBy d w.now w' × (w.now + max_wait_ms ≤ w'.now → has d (fire_timer d w').started ≡ true)
  unfolding events_of event_of handle_all handle mark_dirty is_connected
  changes-IsDueBy turn d ts w fresh idle up =
      let due = handle_all-IsDueBy turn ts d w.now _ (inr (first_change-IsWaiting d _ fresh up)) in
      (due, due-started d w.now _ due)
