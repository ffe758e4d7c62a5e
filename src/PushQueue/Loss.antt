-- ===== src/PushQueue/Loss.antt =====
-- frontend/src/sync/push-queue.ts: an acknowledgement of an earlier push, and a change made since.
use lunch_loxs.Prelude.{ℕ, ◌≡◌, true, false, none, some, arith, Text, text_eq_refl}
use lunch_loxs.Prelude.Sets.{has}
use lunch_loxs.Prelude.Maps
use lunch_loxs.Prelude.Maps.{get-put, get-remove}
use lunch_loxs.Platform.{Platform}
use lunch_loxs.Storage.{get_all_dirty_doc_ids}
use lunch_loxs.Storage.Flags.{has-get_all_dirty_doc_ids}
use lunch_loxs.World.{World, quiet}
use lunch_loxs.Store.{change, run_pending}
use lunch_loxs.Store.Jobs.{change-written, run_pending_frame, doc_id-change, doc-change}
use lunch_loxs.Manager.{get}
use lunch_loxs.Client.{in_client, is_connected}
use lunch_loxs.PushQueue.Marks.{mark_dirty, fire_debounce, schedule_push, note_first}
use lunch_loxs.PushQueue.Replies.{on_ack, acknowledge}
use lunch_loxs.PushQueue.Acks.{IsLinked, on_ack_scan, on_ack_clears}

-- The socket is gone.
go_offline : {p : Platform} → World p → World p
unfolding in_client
go_offline w = in_client (λ c. record c { ws_open = false }) w

module _ {p : Platform} where
  go_offline_lem :
      (w : World p)
      → (is_connected (go_offline w) ≡ false)
        × ((go_offline w).db ≡ w.db)
        × ((go_offline w).queue ≡ w.queue)
        × ((go_offline w).started ≡ w.started)
        × ((go_offline w).heap ≡ w.heap)
  unfolding go_offline is_connected
  go_offline_lem w = ground arith

  schedule_push_lem :
      (d : Text) (w : World p)
      → ((schedule_push d w).db ≡ w.db)
        × ((schedule_push d w).heap ≡ w.heap)
        × ((schedule_push d w).manager ≡ w.manager)
  unfolding schedule_push fire_debounce note_first
  schedule_push_lem d w = ground arith

  on_ack_lem :
      (d : Text) (seq : ℕ) (w : World p)
      → ((on_ack quiet d seq w).1.heap ≡ w.heap) × ((on_ack quiet d seq w).1.started ≡ w.started)
  unfolding on_ack acknowledge
  on_ack_lem d seq w = ground arith

  fire_offline_lem :
      (d : Text) (w : World p)
      → let w' = fire_debounce d (go_offline w) in
        (w'.db ≡ w.db)
        × (w'.heap ≡ w.heap)
        × (w'.started ≡ w.started)
        × (w'.queue.dirty_set ≡ w.queue.dirty_set)
        × (Maps.get d w'.queue.timers ≡ none)
  unfolding fire_debounce
  fire_offline_lem d w =
      ground (arith, go_offline_lem w, get-remove d d (go_offline w).queue.timers, text_eq_refl d)

  mark_dirty_lem :
      (d : Text) (w : World p)
      → ((mark_dirty d w).db ≡ w.db)
        × ((mark_dirty d w).heap ≡ w.heap)
        × ((mark_dirty d w).manager ≡ w.manager)
        × (Maps.get d w.queue.first_change ≡ none → (mark_dirty d w).started ≡ w.started)
  unfolding mark_dirty schedule_push fire_debounce note_first
  mark_dirty_lem d w = ground arith

-- Neither the database, nor the dirty set, nor a timer knows of a change of the document.
pub record IsForgotten {p : Platform} (d : Text) (w : World p) : Type 0 where
  pub flag : has d (get_all_dirty_doc_ids w.db) ≡ false
  pub mark : has d w.queue.dirty_set ≡ false
  pub timer : Maps.get d w.queue.timers ≡ none

-- A change of the open document, written and marked as dirty.
unfoldable pub edited : {p : Platform} → ℕ → Text → (p.Doc → p.Doc) → World p → World p
edited r d fn w = mark_dirty d (run_pending r (change r fn w))

-- Then the socket closes, and the debounce timer of the document fires.
unfoldable pub gone_offline : {p : Platform} → Text → World p → World p
unfolding go_offline
gone_offline d w = fire_debounce d (go_offline w)

module _ {p : Platform} (r : ℕ) (d : Text) (fn : p.Doc → p.Doc) (w : World p) where
  edited-IsLinked : IsLinked w → IsLinked (edited r d fn w)
  unfolding edited get change
  edited-IsLinked v =
      let w' = run_pending r (change r fn w) in
      record {
        link = λ e i at. ground (
          arith,
          mark_dirty_lem d w',
          run_pending_frame r (change r fn w),
          doc_id-change r i fn w,
          v.link e i,
        );
      }

  edited-flagged :
      IsLinked w → get d w ≡ some r → has d (get_all_dirty_doc_ids (edited r d fn w).db) ≡ true
  unfolding edited
  edited-flagged v at =
      let w' = run_pending r (change r fn w) in
      ground (
        arith,
        mark_dirty_lem d w',
        has-get_all_dirty_doc_ids (mark_dirty d w').db d,
        change-written r fn w,
        v.link d r at,
      )

  edited_lem : ((edited r d fn w).heap r).doc ≡ fn (w.heap r).doc
  unfolding edited
  edited_lem =
      let w' = run_pending r (change r fn w) in
      ground (arith, mark_dirty_lem d w', doc-change r fn w)

  edited-started : Maps.get d w.queue.first_change ≡ none → (edited r d fn w).started ≡ w.started
  unfolding edited change
  edited-started idle =
      let w' = run_pending r (change r fn w) in
      ground (arith, mark_dirty_lem d w', run_pending_frame r (change r fn w))

-- If each open store is that of its document: a local change of an open document, with no earlier
-- change waiting, is written and marked, and the database has its dirty flag. If the acknowledgement of an earlier push of the document arrives
-- before the debounce timer fires, and the socket then closes, the changed document is in memory
-- but forgotten: there is no flag in the database, no mark in the dirty set, no timer, and no push
-- was started.
pub on_ack_forgets :
    {p : Platform} (r seq : ℕ) (d : Text) (fn : p.Doc → p.Doc) (w : World p)
    → IsLinked w
    → get d w ≡ some r
    → Maps.get d w.queue.first_change ≡ none
    → let before = edited r d fn w in
      let after = gone_offline d (on_ack quiet d seq before).1 in
      (has d (get_all_dirty_doc_ids before.db) ≡ true)
      × IsForgotten d after
      × ((after.heap r).doc ≡ fn (w.heap r).doc)
      × (after.started ≡ w.started)
unfolding gone_offline change
on_ack_forgets r seq d fn w v at idle =
    let before = edited r d fn w in
    let acked = (on_ack quiet d seq before).1 in
    let after = fire_offline_lem d acked in
    let acks = on_ack_lem d seq before in
    (
      edited-flagged r d fn w v at,
      record {
        flag =
            ground (
              arith,
              after,
              on_ack_scan d d seq before (edited-IsLinked r d fn w v),
              text_eq_refl d,
            );
        mark = ground (arith, after, on_ack_clears quiet d seq before);
        timer = ground (arith, after);
      },
      ground (arith, after, acks, edited_lem r d fn w),
      ground (arith, after, acks, edited-started r d fn w idle),
    )
