-- ===== src/PushQueue.antt =====
-- frontend/src/sync/push-queue.ts, class PushQueue: its constants, the vault of a document and which
-- documents may be pushed. The children hold the operations and the proofs.
pub mod Marks
pub mod Replies
pub mod Push
pub mod Flush
pub mod Vaults
pub mod Events
pub mod Timing
pub mod Window
pub mod Debounce
pub mod Acks
pub mod Loss
pub mod Errors
use lunch_loxs.Prelude.{
  ℕ, zero, suc, ◌+◌, Bool, true, false, not, ◌&&◌, ◌||◌, List, [], ◌∷◌, Option, none, some, Text,
  index_of, take, if◌then◌else◌, any, keep_if, length, is_some,
}
use lunch_loxs.Prelude.Sets.{has}
use lunch_loxs.Platform.{Platform}
use lunch_loxs.World.{Queue, World, in_queue}

abbrev pub debounce_ms : ℕ
debounce_ms = 200

abbrev pub max_wait_ms : ℕ
max_wait_ms = 1500

abbrev pub backoff_initial : ℕ
backoff_initial = 2000

abbrev pub backoff_max : ℕ
backoff_max = 30000

abbrev pub poll_interval_ms : ℕ
poll_interval_ms = 5000

abbrev pub max_push_errors : ℕ
max_push_errors = 5

-- What stands before the first slash, unless that is nothing: the vault of a document.
unfoldable pub vault_id : Text → Option Text
unfolding index_of
vault_id d = elim (index_of b'/' d) [
  | none ↦ none
  | some zero ↦ none
  | some (suc i) ↦ some (take (suc i) d)
]

module _ {p : Platform} where
  -- The vault waits for its creation, or has failed for good.
  unfoldable pub is_blocked : Queue p → Option Text → Bool
  is_blocked q none = false
  is_blocked q (some v) = has v q.pending_vault_ids || has v q.failed_vaults

  -- The filter of `hasPushable` and of `pushableCount`.
  unfoldable pub is_pushable : Queue p → Text → Bool
  unfolding is_blocked vault_id
  is_pushable q d = if has d q.deferred_no_key then false else not (is_blocked q (vault_id d))

  unfoldable pub has_pushable : Queue p → Bool
  unfolding is_pushable
  has_pushable q = any (λ d. is_pushable q d) q.dirty_set

  unfoldable pub pushable_count : Queue p → ℕ
  unfolding is_pushable
  pushable_count q = length (keep_if (λ d. is_pushable q d) q.dirty_set)

  unfoldable pub dirty_count : Queue p → ℕ
  dirty_count q = length q.dirty_set

  unfoldable pub is_dirty : Queue p → Text → Bool
  is_dirty q d = has d q.dirty_set

  -- `scheduleBackoffFlush`
  unfoldable pub schedule_backoff_flush : World p → World p
  schedule_backoff_flush w =
      if is_some w.queue.backoff_timer
      then w
      else in_queue (λ q. record q { backoff_timer = some (w.now + q.backoff_ms) }) w
