-- ===== src/PushQueue/Push.antt =====
-- frontend/src/sync/push-queue.ts: `pushDoc`, and the push of one document at once.
use lunch_loxs.Prelude.{ℕ, Bool, true, false, List, [], ◌∷◌, Text, if◌then◌else◌}
use lunch_loxs.Prelude.Sets
use lunch_loxs.Platform.{Platform}
use lunch_loxs.Storage.{texts, push_heads_key}
use lunch_loxs.World.{
  World, Async, case_option, case_list, ◌>>=◌, ◌>>◌, return, read, run, await, in_queue, notify,
}
use lunch_loxs.Store.{put, wait_for_write}
use lunch_loxs.Manager.{get, open_doc, close}
use lunch_loxs.Client.{PushResult, sent, no_key, not_connected, is_connected, push_snapshot}
use lunch_loxs.PushQueue.Marks.{cancel_timer}
use lunch_loxs.PushQueue.Replies.{drop_flag, forget_dirty}

module _ {p : Platform} where
  -- After the send: the heads of a sent push are noted (the write is not awaited), and a document
  -- with no key is deferred.
  unfoldable pub note_result : Text → ℕ → List Text → PushResult → World p → World p
  note_result d r heads sent w = put (push_heads_key (w.heap r).doc_id) (texts heads) w
  note_result d r heads no_key w =
      in_queue (λ q. record q { deferred_no_key = Sets.add d q.deferred_no_key }) w
  note_result d r heads not_connected w = w

module _ {p : Platform} (turn : World p → World p) where
  unfoldable pub sign : p.Bytes → Async p p.Bytes
  sign raw = do
    sign_fn ← read (λ w. w.queue.sign_fn)
    case_option sign_fn (return raw) λ f. do await turn; return (f raw)

  -- `this.syncClient!.push(…)`; the queue's client is never null once it was connected
  unfoldable pub send_snapshot : Text → p.Bytes → Async p PushResult
  unfolding push_snapshot
  send_snapshot d payload = do
    client ← read (λ w. w.client)
    case_option client (return not_connected) λ c. push_snapshot turn c d payload

  -- `pushDoc` from `waitForWrite` on; `temp` is `tempOpened`
  unfoldable pub push_store : Text → ℕ → Bool → Async p PushResult
  unfolding wait_for_write sign send_snapshot note_result close
  push_store d r temp = do
    wait_for_write turn r
    heads ← read (λ w. p.heads (w.heap r).doc)
    raw ← read (λ w. p.save (w.heap r).doc)
    payload ← sign raw
    result ← send_snapshot d payload
    run (note_result d r heads result)
    if temp then close turn d else return tt
    return result

  -- `pushDoc` where the document is closed: it is opened for the push. One that cannot be opened is
  -- skipped, one with no changes is clean.
  unfoldable pub push_closed : Text → Async p PushResult
  unfolding open_doc push_store drop_flag close
  push_closed d = do
    opened ← open_doc turn d (λ doc. doc)
    case_option opened (return sent) λ r. do
      changes ← read (λ w. p.all_changes (w.heap r).doc)
      case_list changes
          (do drop_flag turn d; run (forget_dirty d); close turn d; run notify; return sent)
          (λ _ _. push_store d r true)

  unfoldable pub push_doc : Text → Async p PushResult
  unfolding push_store push_closed is_connected get
  push_doc d = do
    connected ← read is_connected
    store ← read (get d)
    if connected
        then case_option store (push_closed d) (λ r. push_store d r false)
        else return not_connected

  unfoldable pub flush_now : Text → Async p PushResult
  unfolding push_doc cancel_timer
  flush_now d = do
    run (cancel_timer d)
    run (in_queue (λ q. record q { dirty_set = Sets.add d q.dirty_set }))
    push_doc d

  -- The event loop runs a push that a debounce timer has started.
  unfoldable pub run_started : World p → World p
  unfolding push_doc
  run_started w = elim w.started [ [] ↦ w | d ∷ ds ↦ (push_doc d (record w { started = ds })).1 ]
