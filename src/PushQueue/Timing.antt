-- ===== src/PushQueue/Timing.antt =====
-- frontend/src/sync/push-queue.ts: the debounce window and the backoff delay, whatever the event
-- loop does at each `await`.
pub mod Replies
pub mod Push
pub mod Loop
use lunch_loxs.Prelude.{
  ℕ, suc, ◌+◌, ◌≤◌, ◌<◌, ◌≡◌, refl, Bool, true, false, List, [], ◌∷◌, Option, none, some, arith,
  Text, text_eq, text_eq_iff, if◌then◌else◌, Option-cases, Bool-cases, is_some, or_default, leb,
  ◌-◌, inl, inr, text_eq_refl,
}
use lunch_loxs.Prelude.Maps
use lunch_loxs.Prelude.Maps.{get-set, get-remove}
use lunch_loxs.Platform.{Platform}
use lunch_loxs.World.{Queue, World, Async, ◌>>=◌, in_queue}
use lunch_loxs.World.Keeps.{Keeps, Keeps-bind, Keeps-read, keeps_rules}
use lunch_loxs.PushQueue.{backoff_initial, max_wait_ms, schedule_backoff_flush}
use lunch_loxs.PushQueue.Marks.{
  cancel_timer, fire_debounce, note_first, first_time, schedule_push, mark_dirty, fire_timer, stop,
}
use lunch_loxs.PushQueue.Replies.{settle_ack, on_rate_limited}
use lunch_loxs.PushQueue.Flush.{retry_later}

-- A timer fires within the longest wait after the first change that it stands for; the backoff
-- delay is never below its start.
pub record IsTimely (timers first_change : List (Text × ℕ)) (backoff_ms : ℕ) : Type 0 where
  pub window :
      (d : Text) (t : ℕ)
      → Maps.get d timers ≡ some t
      → (is_some (Maps.get d first_change) ≡ true)
        × (t ≤ or_default (Maps.get d first_change) 0 + max_wait_ms)
  pub backoff : backoff_initial ≤ backoff_ms

set_timer-IsTimely :
    (d : Text) (t f : ℕ) {timers first : List (Text × ℕ)} {b : ℕ}
    → IsTimely timers first b
    → Maps.get d first ≡ some f
    → t ≤ f + max_wait_ms
    → IsTimely (Maps.set d t timers) first b
set_timer-IsTimely d t f {timers} h e le = record {
  window = λ i u x. ground (arith, h.window i u, get-set d i t timers, text_eq_iff d i);
  backoff = h.backoff;
}

module _ {p : Platform} where
  abbrev pub IsTimed : World p → Type 0
  IsTimed w = IsTimely w.queue.timers w.queue.first_change w.queue.backoff_ms

  pub cancel_timer-IsTimed : (d : Text) (w : World p) → IsTimed w → IsTimed (cancel_timer d w)
  unfolding cancel_timer
  cancel_timer-IsTimed d w h = record {
    window = λ e t x.
        ground
          (arith, h.window e t, get-remove d e w.queue.timers, get-remove d e w.queue.first_change);
    backoff = h.backoff;
  }

  pub fire_debounce-IsTimed : (d : Text) (w : World p) → IsTimed w → IsTimed (fire_debounce d w)
  unfolding fire_debounce
  fire_debounce-IsTimed d w h = ground (arith, cancel_timer-IsTimed d w h)

  pub note_first-IsTimed : (d : Text) (w : World p) → IsTimed w → IsTimed (note_first d w)
  unfolding note_first
  note_first-IsTimed d w h = record {
    window = λ e t x.
        ground (arith, h.window e t, text_eq_iff d e, get-set d e w.now w.queue.first_change);
    backoff = ground (arith, h.backoff);
  }

  -- After the first change is noted, it is there, and no later than this wait allows.
  note_first-first :
      (d : Text) (w : World p)
      → Maps.get d (note_first d w).queue.first_change ≡ some (first_time d w)
  unfolding note_first
  note_first-first d w = ground (arith, get-set d d w.now w.queue.first_change, text_eq_refl d)

  pub schedule_push-IsTimed : (d : Text) (w : World p) → IsTimed w → IsTimed (schedule_push d w)
  unfolding schedule_push
  schedule_push-IsTimed d w h =
      let noted = note_first-IsTimed d w h in
      elim (Bool-cases (leb max_wait_ms (w.now - first_time d w))) [
        | inl late ↦ rw late (fire_debounce-IsTimed d (note_first d w) noted)
        | inr early ↦
            rw early
              (set_timer-IsTimely d _ (first_time d w) noted (note_first-first d w) (ground arith))
      ]

  pub mark_dirty-IsTimed : (d : Text) (w : World p) → IsTimed w → IsTimed (mark_dirty d w)
  unfolding mark_dirty
  mark_dirty-IsTimed d w h = schedule_push-IsTimed d _ h

  pub fire_timer-IsTimed : (d : Text) (w : World p) → IsTimed w → IsTimed (fire_timer d w)
  unfolding fire_timer
  fire_timer-IsTimed d w h = ground (arith, fire_debounce-IsTimed d w h)

  pub stop-IsTimed : (w : World p) → IsTimed w → IsTimed (stop w)
  unfolding stop Maps.get
  stop-IsTimed w h = record { window = λ d t x. cc; backoff = h.backoff }

  pub settle_ack-IsTimed : (d : Text) (w : World p) → IsTimed w → IsTimed (settle_ack d w)
  unfolding settle_ack
  settle_ack-IsTimed d w h = record { window = h.window; backoff = ground (arith, h.backoff) }

  pub schedule_backoff_flush-IsTimed :
      (w : World p) → IsTimed w → IsTimed (schedule_backoff_flush w)
  unfolding schedule_backoff_flush
  schedule_backoff_flush-IsTimed w h = ground arith

  pub on_rate_limited-IsTimed :
      (r : Option ℕ) (w : World p) → IsTimed w → IsTimed (on_rate_limited r w)
  unfolding on_rate_limited
  on_rate_limited-IsTimed r w h =
      schedule_backoff_flush-IsTimed _
        (record { window = h.window; backoff = omega (arith, h.backoff) })

  pub retry_later-IsTimed : (w : World p) → IsTimed w → IsTimed (retry_later w)
  unfolding retry_later
  retry_later-IsTimed w h = ground (arith, schedule_backoff_flush-IsTimed w h)
