-- ===== src/PushQueue/Replies.antt =====
-- frontend/src/sync/push-queue.ts: what the server answers. Log lines are left out.
use lunch_loxs.Prelude.{
  ℕ, ◌+◌, max, true, List, [], ◌∷◌, ◌++◌, Option, Text, codes, includes, starts_with, if◌then◌else◌,
  leb, or_default, keep_if,
}
use lunch_loxs.Prelude.Sets
use lunch_loxs.Prelude.Maps
use lunch_loxs.Platform.{Platform}
use lunch_loxs.Storage.{clear_dirty_flag, set_seq_flag}
use lunch_loxs.World.{
  World, Async, case_option, ◌>>=◌, ◌>>◌, return, read, run, await, in_queue, notify,
}
use lunch_loxs.Store.{clear_dirty, set_last_seq}
use lunch_loxs.Manager.{get}
use lunch_loxs.PushQueue.{backoff_initial, max_push_errors, vault_id, schedule_backoff_flush}

module _ {p : Platform} where
  abbrev pub forget_dirty : Text → World p → World p
  forget_dirty d = in_queue λ q. record q { dirty_set = Sets.remove d q.dirty_set }

  -- The bookkeeping of `onAck`, after the flags in the database are cleared.
  unfoldable pub settle_ack : Text → World p → World p
  settle_ack d = in_queue λ q. record q {
    dirty_set = Sets.remove d q.dirty_set;
    error_counts = Maps.remove d q.error_counts;
    backoff_ms = if Sets.has d q.dirty_set then backoff_initial else q.backoff_ms;
  }

  unfoldable pub on_rate_limited : Option ℕ → World p → World p
  unfolding schedule_backoff_flush
  on_rate_limited retry_after_ms w = schedule_backoff_flush (
      in_queue
        (λ q. record q {
          rate_paused = true;
          backoff_ms = max q.backoff_ms (or_default retry_after_ms 0);
        })
        w)

module _ {p : Platform} (turn : World p → World p) where
  -- `await clearDirtyFlag(this.db, docId)`
  unfoldable pub drop_flag : Text → Async p (Unit {0})
  drop_flag d = do run (λ w. record w { db = clear_dirty_flag w.db d }); await turn

  -- An open store clears its own records; those of a closed one are cleared in the database.
  unfoldable pub acknowledge : Text → ℕ → Async p (Unit {0})
  unfolding clear_dirty set_last_seq drop_flag get
  acknowledge d seq = do
    store ← read (get d)
    case_option store
        (do drop_flag d; run (λ w. record w { db = set_seq_flag w.db d seq }); await turn)
        (λ r. do clear_dirty turn r; set_last_seq turn r seq)

  unfoldable pub on_ack : Text → ℕ → Async p (Unit {0})
  unfolding acknowledge settle_ack
  on_ack d seq = do acknowledge d seq; run (settle_ack d); run notify

  unfoldable pub discard : List Text → Async p (Unit {0})
  unfolding drop_flag
  discard [] = return tt
  discard (d ∷ ds) = do run (forget_dirty d); drop_flag d; discard ds

  -- `discardAll`
  unfoldable pub discard_all : List Text → Async p (Unit {0})
  unfolding discard
  discard_all ids = do discard ids; run notify

  -- The dialog: its module is imported, and its answer awaited.
  unfoldable pub ask_discard : List Text → Async p (Unit {0})
  unfolding discard_all
  ask_discard [] = return tt
  ask_discard (d ∷ ds) = do
    await turn
    answer ← read (λ w. w.answer)
    case_option answer (discard_all (d ∷ ds))
        λ yes_discard. do if yes_discard then discard_all (d ∷ ds) else return tt; run notify

  unfoldable pub permission_error : Text → Text → Async p (Unit {0})
  unfolding ask_discard
  permission_error d v = do
    pending ← read (λ w. Sets.has v w.queue.pending_vault_ids)
    failed ← read (λ w. Sets.has v w.queue.failed_vaults)
    if pending then run (λ w. notify (forget_dirty d w)) else if failed then run notify else (do
      run (in_queue (λ q. record q { failed_vaults = Sets.add v q.failed_vaults }))
      ids ← read (λ w. keep_if (λ i. starts_with i (v ++ codes "/")) w.queue.dirty_set)
      ask_discard ids
      run notify)

  -- The error is counted; at `max_push_errors` the queue gives up on the document.
  unfoldable pub count_error : Text → Async p (Unit {0})
  unfolding drop_flag
  count_error d = do
    count ← read (λ w. or_default (Maps.get d w.queue.error_counts) 0 + 1)
    run (
        in_queue (λ q. record q {
          error_counts = Maps.set d count q.error_counts;
          dirty_set = Sets.remove d q.dirty_set;
        }))
    if leb max_push_errors count
        then (do
          drop_flag d
          run (in_queue (λ q. record q { error_counts = Maps.remove d q.error_counts })))
        else return tt
    run notify

  unfoldable pub on_push_error : Text → Text → Async p (Unit {0})
  unfolding permission_error count_error vault_id
  on_push_error d message =
      if includes message (codes "insufficient permissions")
      then case_option (vault_id d) (count_error d) (permission_error d)
      else count_error d
