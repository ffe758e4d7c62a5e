-- ===== src/PushQueue/Events.antt =====
-- The event loop around frontend/src/sync/push-queue.ts: what may happen to a session, one event
-- after another, and at each `await` of an event's handler again.
use lunch_loxs.Prelude.{
  ℕ, zero, suc, ◌+◌, Bool, List, [], ◌∷◌, Option, none, some, Text, if◌then◌else◌, leb,
}
use lunch_loxs.Prelude.Sets.{TextSet}
use lunch_loxs.Platform.{Platform}
use lunch_loxs.World.{Manager, Client, World, in_queue}
use lunch_loxs.Store.{change, apply_changes, run_pending}
use lunch_loxs.Manager.{open_doc, close}
use lunch_loxs.Client.{in_client}
use lunch_loxs.PushQueue.{poll_interval_ms}
use lunch_loxs.PushQueue.Marks.{mark_dirty, fire_timer, stop}
use lunch_loxs.PushQueue.Replies.{on_ack, on_push_error, on_rate_limited}
use lunch_loxs.PushQueue.Push.{flush_now, run_started}
use lunch_loxs.PushQueue.Flush.{flush_all_dirty, fire_backoff}
use lunch_loxs.PushQueue.Vaults.{
  set_pending_vault_ids, forget_pending, on_vaults_changed, update_refs, start, poll,
  try_clear_dirty_on_caught_up, purge_orphaned_dirty, create_pending_vaults,
}

pub data Event (p : Platform) : Type 0 where
  -- the clock, the socket, the answer to a dialog
  tick : ℕ → Event p
  socket : Bool → Event p
  answers : Option Bool → Event p
  -- the user's edits and those of others, pending writes, documents opened and closed
  edit : ℕ → (p.Doc → p.Doc) → Event p
  remote : ℕ → List p.Bytes → Event p
  write : ℕ → Event p
  opens : Text → (p.Doc → p.Doc) → Event p
  closes : Text → Event p
  -- calls of the queue
  marks flushes_now caught_up vault_created : Text → Event p
  acks : Text → ℕ → Event p
  push_errors : Text → Text → Event p
  rate_limits : Option ℕ → Event p
  flushes vaults_changed starts stops : Event p
  pending_ids purges creates : TextSet → Event p
  reconnects : Manager p → Client p → Option (p.Bytes → p.Bytes) → Event p
  -- timers, and pushes that a timer has started
  timer : Text → Event p
  backoff_timer poll_timer runs_started : Event p

abbrev pub repeat_poll : {p : Platform} → ℕ → World p → World p
repeat_poll t = in_queue λ q. record q { poll_timer = some (t + poll_interval_ms) }

module _ {p : Platform} (turn : World p → World p) where
  -- The timer is cleared by its own callback; the poll's repeats.
  unfoldable pub on_backoff_timer : World p → World p
  unfolding fire_backoff
  on_backoff_timer w = elim w.queue.backoff_timer [
    | none ↦ w
    | some t ↦ if leb t w.now then (fire_backoff turn w).1 else w
  ]

  unfoldable pub on_poll_timer : World p → World p
  unfolding poll
  on_poll_timer w = elim w.queue.poll_timer [
    | none ↦ w
    | some t ↦ if leb t w.now then (poll turn (repeat_poll t w)).1 else w
  ]

  unfoldable pub handle : Event p → World p → World p
  unfolding on_backoff_timer on_poll_timer in_client
  handle (tick n) w = record w { now = w.now + n }
  handle (socket b) w = in_client (λ c. record c { ws_open = b }) w
  handle (answers a) w = record w { answer = a }
  handle (edit r fn) w = change r fn w
  handle (remote r cs) w = apply_changes r cs w
  handle (write r) w = run_pending r w
  handle (opens d fn) w = (open_doc turn d fn w).1
  handle (closes d) w = (close turn d w).1
  handle (marks d) w = mark_dirty d w
  handle (flushes_now d) w = (flush_now turn d w).1
  handle (caught_up d) w = (try_clear_dirty_on_caught_up turn d w).1
  handle (vault_created v) w = forget_pending v w
  handle (acks d seq) w = (on_ack turn d seq w).1
  handle (push_errors d message) w = (on_push_error turn d message w).1
  handle (rate_limits retry) w = on_rate_limited retry w
  handle flushes w = (flush_all_dirty turn w).1
  handle vaults_changed w = on_vaults_changed w
  handle starts w = (start turn w).1
  handle stops w = stop w
  handle (pending_ids ids) w = set_pending_vault_ids ids w
  handle (purges known) w = (purge_orphaned_dirty turn known w).1
  handle (creates known) w = (create_pending_vaults turn known w).1
  handle (reconnects m c sign_fn) w = update_refs m c sign_fn w
  handle (timer d) w = fire_timer d w
  handle backoff_timer w = on_backoff_timer w
  handle poll_timer w = on_poll_timer w
  handle runs_started w = run_started turn w

  unfoldable pub handle_all : List (Event p) → World p → World p
  handle_all [] w = w
  handle_all (e ∷ es) w = handle_all es (handle e w)

-- What runs at an `await`: the events that `choose` picks for the state, whose handlers leave room
-- for other events at their own `await`s, down to the depth `n`.
unfoldable pub interleave : {p : Platform} → (World p → List (Event p)) → ℕ → World p → World p
unfolding handle_all
interleave choose zero w = w
interleave choose (suc n) w = handle_all (interleave choose n) (choose w) w

-- A history of a session.
unfoldable pub run_events :
    {p : Platform} → (World p → List (Event p)) → ℕ → List (Event p) → World p → World p
unfolding handle_all interleave
run_events choose n es w = handle_all (interleave choose n) es w
