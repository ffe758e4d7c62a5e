-- ===== src/PushQueue/Errors.antt =====
-- frontend/src/sync/push-queue.ts: rejected pushes.
use lunch_loxs.Prelude.{
  ℕ, zero, suc, ◌+◌, ◌≤◌, ◌<◌, ◌≡◌, refl, ap, false, arith, Text, text_eq_refl, or_default, codes,
  includes,
}
use lunch_loxs.Prelude.Sets.{has, has-remove}
use lunch_loxs.Prelude.Maps
use lunch_loxs.Prelude.Maps.{get-set, get-remove}
use lunch_loxs.Platform.{Platform}
use lunch_loxs.Storage.{get_all_dirty_doc_ids, clear_dirty_flag}
use lunch_loxs.Storage.Flags.{has-clear_dirty_flag}
use lunch_loxs.World.{World, quiet}
use lunch_loxs.PushQueue.{max_push_errors}
use lunch_loxs.PushQueue.Replies.{drop_flag, count_error, on_push_error}

module _ {p : Platform} where
  abbrev pub errors : Text → World p → ℕ
  errors d w = or_default (Maps.get d w.queue.error_counts) 0

  -- The same rejection again and again, with nothing in between.
  unfoldable pub rejected : ℕ → Text → Text → World p → World p
  unfolding on_push_error
  rejected zero d message w = w
  rejected (suc n) d message w = (on_push_error quiet d message (rejected n d message w)).1

  count_error_few :
      (d : Text) (w : World p)
      → errors d w + 1 < max_push_errors
      → (errors d (count_error quiet d w).1 ≡ errors d w + 1)
        × ((count_error quiet d w).1.db ≡ w.db)
        × (has d (count_error quiet d w).1.queue.dirty_set ≡ false)
  unfolding count_error
  count_error_few d w h = ground (
    arith,
    get-set d d (errors d w + 1) w.queue.error_counts,
    has-remove d d w.queue.dirty_set,
    text_eq_refl d,
  )

  count_error_last :
      (d : Text) (w : World p)
      → max_push_errors ≤ errors d w + 1
      → (errors d (count_error quiet d w).1 ≡ 0)
        × ((count_error quiet d w).1.db ≡ clear_dirty_flag w.db d)
        × (has d (count_error quiet d w).1.queue.dirty_set ≡ false)
  unfolding count_error drop_flag
  count_error_last d w h = ground (
    arith,
    get-remove d d (Maps.set d (errors d w + 1) w.queue.error_counts),
    has-remove d d w.queue.dirty_set,
    text_eq_refl d,
  )

  on_push_error_other :
      (d message : Text) (w : World p)
      → includes message (codes "insufficient permissions") ≡ false
      → on_push_error quiet d message w ≡ count_error quiet d w
  unfolding on_push_error
  on_push_error_other d message w e = rw e refl

module _ {p : Platform} (d message : Text) (w : World p)
    (other : includes message (codes "insufficient permissions") ≡ false)
    (fresh : errors d w ≡ 0) where
  rejected-suc :
      (n : ℕ) → rejected (suc n) d message w ≡ (count_error quiet d (rejected n d message w)).1
  unfolding rejected
  rejected-suc n =
      ap (λ (r : (Unit {0}) × World p). r.1)
        (on_push_error_other d message (rejected n d message w) other)

  rejected_few :
      (n : ℕ)
      → n < max_push_errors
      → (errors d (rejected n d message w) ≡ n) × ((rejected n d message w).db ≡ w.db)
  unfolding rejected
  rejected_few zero h = (fresh, refl)
  rejected_few (suc n) h =
      let before = rejected n d message w in
      let ih = rejected_few n (omega arith) in
      rw (rejected-suc n) (ground (arith, ih, count_error_few d before (omega (arith, ih))))

  rejected_last :
      (has d (get_all_dirty_doc_ids (rejected 5 d message w).db) ≡ false)
      × (errors d (rejected 5 d message w) ≡ 0)
  rejected_last =
      let before = rejected 4 d message w in
      let ih = rejected_few 4 (omega arith) in
      rw (rejected-suc 4) (
        ground (
          arith,
          count_error_last d before (omega (arith, ih)),
          has-clear_dirty_flag before.db d d,
          text_eq_refl d,
        ))

-- Rejections in a row, with nothing in between, of a document with no errors counted, for another
-- reason than permissions: fewer than five of them leave the database as it is; the fifth takes its
-- dirty flag away, and the count starts anew.
pub rejected_five :
    {p : Platform} (d message : Text) (few : ℕ) (w : World p)
    → includes message (codes "insufficient permissions") ≡ false
    → errors d w ≡ 0
    → few < max_push_errors
    → ((rejected few d message w).db ≡ w.db)
      × (has d (get_all_dirty_doc_ids (rejected max_push_errors d message w).db) ≡ false)
      × (errors d (rejected max_push_errors d message w) ≡ 0)
rejected_five d message few w other fresh h =
    let last = rejected_last d message w other fresh in
    ((rejected_few d message w other fresh few h).1, last.0, last.1)
