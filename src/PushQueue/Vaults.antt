-- ===== src/PushQueue/Vaults.antt =====
-- frontend/src/sync/push-queue.ts: start and reconnection, the background poll, and what changes
-- with the list of vaults.
use lunch_loxs.Prelude.{
  ◌+◌, Bool, true, false, not, ◌&&◌, ◌||◌, List, [], ◌∷◌, Option, none, some, Text, text_eq,
  if◌then◌else◌, is_some, ℕ, any,
}
use lunch_loxs.Prelude.Sets
use lunch_loxs.Prelude.Sets.{TextSet}
use lunch_loxs.Platform.{Platform}
use lunch_loxs.Storage.{
  PendingVault, get_all_dirty_doc_ids, get_all_pending_vaults, clear_pending_vault,
}
use lunch_loxs.World.{
  Queue, Manager, Client, World, Async, case_option, case_list, ◌>>=◌, ◌>>◌, return, read, run,
  await, in_queue, notify,
}
use lunch_loxs.Store.{clear_dirty, get_push_heads}
use lunch_loxs.Manager.{get}
use lunch_loxs.Client.{is_connected, in_client, create_vault_fire_and_forget}
use lunch_loxs.PushQueue.{poll_interval_ms, vault_id}
use lunch_loxs.PushQueue.Replies.{drop_flag, forget_dirty}
use lunch_loxs.PushQueue.Flush.{flush_all_dirty}

-- `a.length === b.length && a.every((h, i) => h === b[i])`
unfoldable pub same_heads : List Text → List Text → Bool
same_heads [] [] = true
same_heads (a ∷ as') (b ∷ bs) = text_eq a b && same_heads as' bs
same_heads _ _ = false

-- A document of a vault that is not known.
unfoldable pub is_orphan : TextSet → Text → Bool
unfolding vault_id
is_orphan known d = elim (vault_id d) [ none ↦ false | some v ↦ not (Sets.has v known) ]

module _ {p : Platform} where
  unfoldable pub set_pending_vault_ids : TextSet → World p → World p
  set_pending_vault_ids ids = in_queue λ q. record q { pending_vault_ids = ids }

  -- `clearPendingVault` of the queue (the database has its own)
  unfoldable pub forget_pending : Text → World p → World p
  forget_pending v =
      in_queue λ q. record q { pending_vault_ids = Sets.remove v q.pending_vault_ids }

  unfoldable pub on_vaults_changed : World p → World p
  on_vaults_changed =
      in_queue λ q. record q { ready = true; deferred_no_key = []; failed_vaults = [] }

  -- After a reconnection; `sign_fn` is left as it is where none is given.
  unfoldable pub update_refs : Manager p → Client p → Option (p.Bytes → p.Bytes) → World p → World p
  update_refs m c sign_fn w = record w {
    manager = m;
    client = some c;
    queue = record (w.queue) {
      ready = false;
      sign_fn = elim sign_fn [ none ↦ w.queue.sign_fn | some f ↦ some f ];
    };
  }

  unfoldable pub is_failed : Queue p → Option Text → Bool
  is_failed q none = false
  is_failed q (some v) = Sets.has v q.failed_vaults

  -- One round of the poll's loop.
  unfoldable pub rediscover : Text → World p → World p
  unfolding is_failed vault_id
  rediscover d w =
      if Sets.has d w.queue.dirty_set || is_failed w.queue (vault_id d)
      then w
      else in_queue (λ q. record q { dirty_set = Sets.add d q.dirty_set }) w

  unfoldable pub discover : List Text → World p → World p
  unfolding rediscover
  discover [] w = w
  discover (d ∷ ds) w = discover ds (rediscover d w)

  -- `if (discovered > 0) this.onDirtyChange?.()`
  unfoldable pub any_new : List Text → World p → Bool
  any_new [] w = false
  any_new (d ∷ ds) w =
      not (Sets.has d w.queue.dirty_set || is_failed w.queue (vault_id d)) || any_new ds w

module _ {p : Platform} (turn : World p → World p) where
  -- `start()`
  unfoldable pub start : Async p (Unit {0})
  start = do
    await turn
    ids ← read (λ w. get_all_dirty_doc_ids w.db)
    run (in_queue (λ q. record q { dirty_set = Sets.add_all ids q.dirty_set }))
    run (λ w.
        in_queue
          (λ q. record q {
            poll_timer =
                if is_some q.poll_timer then q.poll_timer else some (w.now + poll_interval_ms);
          })
          w)

  unfoldable pub poll_flush : Async p (Unit {0})
  unfolding flush_all_dirty
  poll_flush = do
    dirty ← read (λ w. w.queue.dirty_set)
    waiting ← read (λ w. is_some w.queue.backoff_timer)
    case_list dirty (return tt) λ _ _. if waiting then return tt else flush_all_dirty turn

  -- `poll()`
  unfoldable pub poll : Async p (Unit {0})
  unfolding discover any_new poll_flush is_connected
  poll = do
    flushing ← read (λ w. w.queue.flushing)
    connected ← read is_connected
    if flushing || not connected then return tt else (do
      await turn
      ids ← read (λ w. get_all_dirty_doc_ids w.db)
      new ← read (any_new ids)
      run (discover ids)
      if new then run notify else return tt
      poll_flush)

  unfoldable pub clear_if_same : Text → ℕ → List Text → Async p (Unit {0})
  unfolding same_heads clear_dirty
  clear_if_same d r push_heads = do
    heads ← read (λ w. p.heads (w.heap r).doc)
    if same_heads push_heads heads
        then (do clear_dirty turn r; run (forget_dirty d); run notify)
        else return tt

  unfoldable pub try_clear_dirty_on_caught_up : Text → Async p (Unit {0})
  unfolding clear_if_same get_push_heads get
  try_clear_dirty_on_caught_up d = do
    dirty ← read (λ w. Sets.has d w.queue.dirty_set)
    store ← read (get d)
    if dirty
        then case_option store (return tt) (λ r. do
          push_heads ← get_push_heads turn r
          case_option push_heads (return tt) (clear_if_same d r))
        else return tt

  unfoldable pub purge_one : TextSet → Text → Async p (Unit {0})
  unfolding is_orphan drop_flag
  purge_one known d =
      if is_orphan known d then (do run (forget_dirty d); drop_flag turn d) else return tt

  unfoldable pub purge : TextSet → List Text → Async p (Unit {0})
  unfolding purge_one
  purge known [] = return tt
  purge known (d ∷ ds) = do purge_one known d; purge known ds

  unfoldable pub purge_orphaned_dirty : TextSet → Async p (Unit {0})
  unfolding purge
  purge_orphaned_dirty known = do
    ids ← read (λ w. w.queue.dirty_set)
    purge known ids
    if any (is_orphan known) ids then run notify else return tt

  -- A vault that the server knows is no longer pending; creation of another is asked for. `true` is
  -- `break`.
  unfoldable pub create_one : TextSet → PendingVault → Async p Bool
  unfolding create_vault_fire_and_forget in_client
  create_one known pv = do
    client ← read (λ w. w.client)
    if Sets.has pv.vault_id known
        then (do
          run (λ w. record w { db = clear_pending_vault w.db pv.vault_id })
          await turn
          return false)
        else case_option client (return true) (λ _. do
          run (
              in_client (
                create_vault_fire_and_forget pv.vault_id pv.encrypted_vault_key
                  pv.sender_public_key))
          return false)

  unfoldable pub create_pending : TextSet → List PendingVault → Async p (Unit {0})
  unfolding create_one
  create_pending known [] = return tt
  create_pending known (pv ∷ pvs) = do
    stop ← create_one known pv
    if stop then return tt else create_pending known pvs

  unfoldable pub create_pending_vaults : TextSet → Async p (Unit {0})
  unfolding create_pending
  create_pending_vaults known = do
    await turn
    pending ← read (λ w. get_all_pending_vaults w.db)
    create_pending known pending
