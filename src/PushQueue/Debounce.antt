-- ===== src/PushQueue/Debounce.antt =====
-- frontend/src/sync/push-queue.ts: what a local change leads to.
use lunch_loxs.Prelude.{
  ℕ, ◌+◌, ◌-◌, min, ◌≤◌, ◌<◌, ◌≡◌, ◌⊎◌, inl, inr, Bool, true, List, [], ◌∷◌, ◌++◌, none, some,
  arith, Text, text_eq_refl, if◌then◌else◌, leb, Bool-cases,
}
use lunch_loxs.Prelude.Sets.{has, add, has-add}
use lunch_loxs.Prelude.Maps
use lunch_loxs.Prelude.Maps.{get-set, get-remove}
use lunch_loxs.Platform.{Platform}
use lunch_loxs.World.{World, in_queue, notify}
use lunch_loxs.Client.{is_connected}
use lunch_loxs.PushQueue.{debounce_ms, max_wait_ms}
use lunch_loxs.PushQueue.Marks.{first_time, note_first, fire_debounce, schedule_push, mark_dirty}

-- The state after a change of `d` at `now`, where `first` is the first change of `d` that is not
-- pushed, and `started` the pushes started before.
module _ {p : Platform} (d : Text) (now first : ℕ) (started : List Text) where
  -- A timer fires after the change, soon, and within the longest wait.
  pub record IsScheduled (w : World p) : Type 0 where
    pub at : ℕ
    pub timer : Maps.get d w.queue.timers ≡ some at
    pub later : now < at
    pub soon : at ≤ now + debounce_ms
    pub window : at ≤ first + max_wait_ms
    pub same : w.started ≡ started

  -- The longest wait is over: the push starts now, if the socket is open.
  pub record IsStarted (connected : Bool) (w : World p) : Type 0 where
    pub timer : Maps.get d w.queue.timers ≡ none
    pub overdue : first + max_wait_ms ≤ now
    pub begun : w.started ≡ (if connected then started ++ d ∷ [] else started)

module _ {p : Platform} where
  note_first-started : (d : Text) (w : World p) → (note_first d w).started ≡ w.started
  unfolding note_first
  note_first-started d w = ground arith

  note_first-connected : (d : Text) (w : World p) → is_connected (note_first d w) ≡ is_connected w
  unfolding note_first is_connected
  note_first-connected d w = ground arith

  fire_debounce_lem :
      (d : Text) (w : World p)
      → (Maps.get d (fire_debounce d w).queue.timers ≡ none)
        × ((fire_debounce d w).started
            ≡ (if is_connected w then w.started ++ d ∷ [] else w.started))
  unfolding fire_debounce
  fire_debounce_lem d w = ground (arith, get-remove d d w.queue.timers, text_eq_refl d)

  fire_debounce-IsStarted :
      (d : Text) (w : World p)
      → leb max_wait_ms (w.now - first_time d w) ≡ true
      → IsStarted d w.now
          (first_time d w)
          w.started
          (is_connected w)
          (fire_debounce d (note_first d w))
  fire_debounce-IsStarted d w late = record {
    timer = (fire_debounce_lem d (note_first d w)).0;
    overdue = ground arith;
    begun = ground (
      arith,
      fire_debounce_lem d (note_first d w),
      note_first-started d w,
      note_first-connected d w,
    );
  }

  schedule_push_cases :
      (d : Text) (w : World p)
      → IsScheduled d w.now (first_time d w) w.started (schedule_push d w)
        ⊎ IsStarted d w.now (first_time d w) w.started (is_connected w) (schedule_push d w)
  unfolding schedule_push
  schedule_push_cases d w =
      let at = w.now + min debounce_ms (max_wait_ms - (w.now - first_time d w)) in
      elim (Bool-cases (leb max_wait_ms (w.now - first_time d w))) [
        | inl late ↦ rw late (inr (fire_debounce-IsStarted d w late))
        | inr early ↦ rw early (
            inl (record {
              at = at;
              timer = ground (arith, get-set d d at (note_first d w).queue.timers, text_eq_refl d);
              later = ground arith;
              soon = omega arith;
              window = ground arith;
              same = note_first-started d w;
            }))
      ]

  schedule_push-dirty_set :
      (d : Text) (w : World p) → (schedule_push d w).queue.dirty_set ≡ w.queue.dirty_set
  unfolding schedule_push note_first fire_debounce
  schedule_push-dirty_set d w = ground arith

-- A change of a document makes it dirty. Either a timer fires after now, within 200 ms of now and
-- within 1500 ms of the first change that is not pushed; or those 1500 ms are over, and its push
-- starts now if the socket is open.
pub mark_dirty_cases :
    {p : Platform} (d : Text) (w : World p)
    → (has d (mark_dirty d w).queue.dirty_set ≡ true)
      × (IsScheduled d w.now (first_time d w) w.started (mark_dirty d w)
          ⊎ IsStarted d w.now (first_time d w) w.started (is_connected w) (mark_dirty d w))
unfolding mark_dirty is_connected
mark_dirty_cases d w = (
  ground (
    arith,
    schedule_push-dirty_set d
        (notify (in_queue (λ q. record q { dirty_set = add d q.dirty_set }) w)),
    has-add d d w.queue.dirty_set,
    text_eq_refl d,
  ),
  schedule_push_cases d (notify (in_queue (λ q. record q { dirty_set = add d q.dirty_set }) w)),
)
