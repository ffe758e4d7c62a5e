-- ===== src/PushQueue/Flush.antt =====
-- frontend/src/sync/push-queue.ts: the flush of all dirty documents, the backoff timer and the poll.
use lunch_loxs.Prelude.{
  ◌*◌, min, Bool, true, false, not, ◌&&◌, ◌||◌, List, [], ◌∷◌, none, Text, if◌then◌else◌, is_some,
}
use lunch_loxs.Prelude.Sets
use lunch_loxs.Platform.{Platform}
use lunch_loxs.World.{Queue, World, Async, case_list, ◌>>=◌, ◌>>◌, return, read, run, in_queue}
use lunch_loxs.Client.{PushResult, not_connected, is_connected}
use lunch_loxs.PushQueue.{backoff_max, vault_id, is_blocked, has_pushable, schedule_backoff_flush}
use lunch_loxs.PushQueue.Push.{push_doc}

abbrev pub is_not_connected : PushResult → Bool
is_not_connected not_connected = true
is_not_connected _ = false

module _ {p : Platform} where
  -- The `continue`s of the loop: acknowledged meanwhile, deferred, or of a blocked vault.
  unfoldable pub is_skipped : Queue p → Text → Bool
  unfolding is_blocked vault_id
  is_skipped q d =
      not (Sets.has d q.dirty_set) || Sets.has d q.deferred_no_key || is_blocked q (vault_id d)

  -- `if (hasPushable && this.isConnected() && !this.backoffTimer) this.scheduleBackoffFlush()`
  unfoldable pub retry_later : World p → World p
  unfolding has_pushable schedule_backoff_flush is_connected
  retry_later w =
      if has_pushable w.queue && is_connected w && not (is_some w.queue.backoff_timer)
      then schedule_backoff_flush w
      else w

module _ {p : Platform} (turn : World p → World p) where
  -- One round of the loop; `true` is `break`.
  unfoldable pub flush_one : Text → Async p Bool
  unfolding push_doc is_connected is_skipped
  flush_one d = do
    connected ← read is_connected
    paused ← read (λ w. w.queue.rate_paused)
    skipped ← read (λ w. is_skipped w.queue d)
    if not connected || paused
        then return true
        else if skipped
        then return false
        else (do result ← push_doc turn d; return (is_not_connected result))

  unfoldable pub flush_loop : List Text → Async p (Unit {0})
  unfolding flush_one
  flush_loop [] = return tt
  flush_loop (d ∷ ds) = do stop ← flush_one d; if stop then return tt else flush_loop ds

  unfoldable pub flush_all_dirty : Async p (Unit {0})
  unfolding flush_loop retry_later is_connected
  flush_all_dirty = do
    connected ← read is_connected
    flushing ← read (λ w. w.queue.flushing)
    ready ← read (λ w. w.queue.ready)
    if flushing || not connected || not ready then return tt else (do
      run (in_queue (λ q. record q { flushing = true; rate_paused = false }))
      ids ← read (λ w. w.queue.dirty_set)
      case_list ids (run (in_queue (λ q. record q { flushing = false }))) λ d ds. do
        flush_loop (d ∷ ds)
        run (in_queue (λ q. record q { flushing = false }))
        run retry_later)

  -- The backoff timer fires at its time.
  unfoldable pub fire_backoff : Async p (Unit {0})
  unfolding flush_all_dirty
  fire_backoff = do
    run (
        in_queue (λ q. record q {
          backoff_timer = none;
          rate_paused = false;
          backoff_ms = min (q.backoff_ms * 2) backoff_max;
        }))
    flush_all_dirty
