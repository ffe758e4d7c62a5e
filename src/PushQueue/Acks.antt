-- ===== src/PushQueue/Acks.antt =====
-- frontend/src/sync/push-queue.ts: acknowledgements, whether the document is open or closed.
use lunch_loxs.Prelude.{
  ℕ, ◌≡◌, not, ◌&&◌, ◌||◌, false, none, some, arith, Text, text_eq, text_eq_refl, if◌then◌else◌,
  Option-cases, inl, inr,
}
use lunch_loxs.Prelude.Sets.{has, has-remove}
use lunch_loxs.Prelude.Maps
use lunch_loxs.Prelude.Maps.{get-put, get-remove}
use lunch_loxs.Platform.{Platform}
use lunch_loxs.Storage.{
  number, dirty_key, push_heads_key, seq_key, clear_dirty_flag, set_seq_flag, get_all_dirty_doc_ids,
}
use lunch_loxs.Storage.Flags.{
  get-clear_dirty_flag, get-set_seq_flag, has-clear_dirty_flag, has-set_seq_flag,
}
use lunch_loxs.World.{World, quiet}
use lunch_loxs.Manager.{get}
use lunch_loxs.PushQueue.Replies.{acknowledge, settle_ack, on_ack}

-- The store that is open for a document is that document's.
pub record IsLinked {p : Platform} (w : World p) : Type 0 where
  pub link : (d : Text) (r : ℕ) → get d w ≡ some r → (w.heap r).doc_id ≡ d

module _ {p : Platform} where
  -- With nothing in between, both branches write the same records.
  acknowledge-db :
      (d : Text) (seq : ℕ) (w : World p)
      → IsLinked w
      → (acknowledge quiet d seq w).1.db ≡ set_seq_flag (clear_dirty_flag w.db d) d seq
  unfolding acknowledge clear_dirty_flag set_seq_flag
  acknowledge-db d seq w v = elim (Option-cases (get d w)) [
    | inl e ↦ ground (arith, e)
    | inr (r, e) ↦ ground (arith, e, v.link d r e)
  ]

-- If each open store is that of its document: an acknowledgement, with nothing in between, removes the dirty flag and the pushed heads of the
-- document, stores its sequence number and leaves every other record alone, whether the document's
-- store is open or closed.
pub get-on_ack :
    {p : Platform} (d k : Text) (seq : ℕ) (w : World p)
    → IsLinked w
    → Maps.get k (on_ack quiet d seq w).1.db ≡ (
        if text_eq (seq_key d) k
        then some (number seq)
        else if text_eq (dirty_key d) k || text_eq (push_heads_key d) k
        then none
        else Maps.get k w.db)
unfolding on_ack settle_ack
get-on_ack d k seq w v = ground (
  arith,
  acknowledge-db d seq w v,
  get-set_seq_flag (clear_dirty_flag w.db d) d k seq,
  get-clear_dirty_flag w.db d k,
)

-- Whatever runs at its `await`s, an acknowledgement ends with the document neither dirty nor with
-- errors counted.
pub on_ack_clears :
    {p : Platform} (turn : World p → World p) (d : Text) (seq : ℕ) (w : World p)
    → (has d (on_ack turn d seq w).1.queue.dirty_set ≡ false)
      × (Maps.get d (on_ack turn d seq w).1.queue.error_counts ≡ none)
unfolding on_ack settle_ack
on_ack_clears turn d seq w =
    let w' = (acknowledge turn d seq w).1 in
    ground (
      arith,
      has-remove d d w'.queue.dirty_set,
      get-remove d d w'.queue.error_counts,
      text_eq_refl d,
    )

-- If each open store is that of its document: after an acknowledgement, with nothing in between, the
-- scan of the database no longer finds the document, and finds any other exactly if it did before.
pub on_ack_scan :
    {p : Platform} (d e : Text) (seq : ℕ) (w : World p)
    → IsLinked w
    → has e (get_all_dirty_doc_ids (on_ack quiet d seq w).1.db)
      ≡ (not (text_eq d e) && has e (get_all_dirty_doc_ids w.db))
unfolding on_ack settle_ack
on_ack_scan d e seq w v = ground (
  arith,
  acknowledge-db d seq w v,
  has-set_seq_flag (clear_dirty_flag w.db d) d e seq,
  has-clear_dirty_flag w.db d e,
)
