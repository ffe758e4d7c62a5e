-- ===== src/PushQueue/Marks.antt =====
-- frontend/src/sync/push-queue.ts: marks of local changes and the debounce timers. A push that a
-- timer starts is not awaited: it is put down as started, and the event loop runs it.
use lunch_loxs.Prelude.{
  ℕ, ◌+◌, ◌-◌, min, [], ◌∷◌, ◌++◌, none, some, Text, if◌then◌else◌, leb, or_default, is_some,
}
use lunch_loxs.Prelude.Sets.{add}
use lunch_loxs.Prelude.Maps
use lunch_loxs.Platform.{Platform}
use lunch_loxs.World.{World, in_queue, notify}
use lunch_loxs.Client.{is_connected}
use lunch_loxs.PushQueue.{debounce_ms, max_wait_ms}

module _ {p : Platform} where
  unfoldable pub cancel_timer : Text → World p → World p
  cancel_timer d =
      in_queue λ q. record q {
        timers = Maps.remove d q.timers;
        first_change = Maps.remove d q.first_change;
      }

  unfoldable pub fire_debounce : Text → World p → World p
  unfolding cancel_timer is_connected
  fire_debounce d w =
      let w' = cancel_timer d w in
      if is_connected w' then record w' { started = w'.started ++ d ∷ [] } else w'

  -- When `d` first changed since its last push, this change included.
  abbrev pub first_time : Text → World p → ℕ
  first_time d w = or_default (Maps.get d w.queue.first_change) w.now

  -- `if (!this.firstChange.has(docId)) this.firstChange.set(docId, now)`
  unfoldable pub note_first : Text → World p → World p
  note_first d w =
      if is_some (Maps.get d w.queue.first_change)
      then w
      else in_queue (λ q. record q { first_change = Maps.set d w.now q.first_change }) w

  unfoldable pub schedule_push : Text → World p → World p
  unfolding fire_debounce note_first
  schedule_push d w =
      let elapsed = w.now - first_time d w in
      let w' = note_first d w in
      let delay = min debounce_ms (max_wait_ms - elapsed) in
      if leb max_wait_ms elapsed
      then fire_debounce d w'
      else in_queue (λ q. record q { timers = Maps.set d (w.now + delay) q.timers }) w'

  unfoldable pub mark_dirty : Text → World p → World p
  unfolding schedule_push
  mark_dirty d w =
      schedule_push d (notify (in_queue (λ q. record q { dirty_set = add d q.dirty_set }) w))

  -- A debounce timer fires at its time.
  unfoldable pub fire_timer : Text → World p → World p
  unfolding fire_debounce
  fire_timer d w = elim (Maps.get d w.queue.timers) [
    | none ↦ w
    | some t ↦ if leb t w.now then fire_debounce d w else w
  ]

  -- `stop()`
  unfoldable pub stop : World p → World p
  stop =
      in_queue
        λ q. record q { poll_timer = none; backoff_timer = none; timers = []; first_change = [] }
