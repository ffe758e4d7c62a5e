-- ===== src/PushQueue/Timing/Push.antt =====
-- frontend/src/sync/push-queue.ts: pushes and flushes keep the debounce window and the backoff
-- delay.
use lunch_loxs.Prelude.{ℕ, Bool, List, [], ◌∷◌, Option, Text}
use lunch_loxs.Platform.{Platform}
use lunch_loxs.World.{Client, World}
use lunch_loxs.World.Keeps.{Keeps, Keeps-bind, Keeps-return, Keeps-if, keeps_rules}
use lunch_loxs.Store.{open_store, created, persist_now}
use lunch_loxs.Manager.{open_doc, open_with_key, close}
use lunch_loxs.Client.{push_snapshot}
use lunch_loxs.PushQueue.Push.{
  sign, send_snapshot, push_store, push_closed, push_doc, flush_now, run_started,
}
use lunch_loxs.PushQueue.Flush.{flush_one, flush_loop, flush_all_dirty, fire_backoff}
use lunch_loxs.PushQueue.Timing.{IsTimed, cancel_timer-IsTimed, retry_later-IsTimed}
use lunch_loxs.PushQueue.Timing.Replies.{
  relax-IsTimely, encrypt_doc-IsTimed, allocate-IsTimed, encrypt_payload-IsTimed, opened-IsTimed,
  in_client-IsTimed, note_result-IsTimed, wait_for_write-IsTimed, drop_flag-IsTimed,
}

module _ {p : Platform} (turn : World p → World p)
    (keep : (w : World p) → IsTimed w → IsTimed (turn w)) where
  pub persist_now-IsTimed : (r : ℕ) → Keeps IsTimed (persist_now turn r)
  unfolding persist_now
  persist_now-IsTimed r = search (keeps_rules, keep, encrypt_doc-IsTimed) depth 14

  pub created-IsTimed :
      (d : Text) (k : p.CryptoKey) (f : Option (p.Doc → p.Doc)) (doc : p.Doc)
      → Keeps IsTimed (created turn d k f doc)
  unfolding created
  created-IsTimed d k f doc = search (keeps_rules, allocate-IsTimed, persist_now-IsTimed) depth 14

  pub open_store-IsTimed :
      (d : Text) (k : p.CryptoKey) (f : p.Doc → p.Doc) → Keeps IsTimed (open_store turn d k f)
  unfolding open_store
  open_store-IsTimed d k f = search (keeps_rules, keep, created-IsTimed) depth 14

  pub open_with_key-IsTimed :
      (d : Text) (k : p.CryptoKey) (f : p.Doc → p.Doc) → Keeps IsTimed (open_with_key turn d k f)
  unfolding open_with_key
  open_with_key-IsTimed d k f =
      search (keeps_rules, keep, open_store-IsTimed, opened-IsTimed) depth 14

  pub open_doc-IsTimed : (d : Text) (f : p.Doc → p.Doc) → Keeps IsTimed (open_doc turn d f)
  unfolding open_doc
  open_doc-IsTimed d f = search (keeps_rules, open_with_key-IsTimed) depth 14

  pub close-IsTimed : (d : Text) → Keeps IsTimed (close turn d)
  unfolding close
  close-IsTimed d = search (keeps_rules, wait_for_write-IsTimed turn keep) depth 14

  pub push_snapshot-IsTimed :
      (c : Client p) (d : Text) (b : p.Bytes) → Keeps IsTimed (push_snapshot turn c d b)
  unfolding push_snapshot
  push_snapshot-IsTimed c d b =
      search (keeps_rules, keep, encrypt_payload-IsTimed, in_client-IsTimed) depth 14

  pub sign-IsTimed : (b : p.Bytes) → Keeps IsTimed (sign turn b)
  unfolding sign
  sign-IsTimed b = search (keeps_rules, keep) depth 14

  pub send_snapshot-IsTimed : (d : Text) (b : p.Bytes) → Keeps IsTimed (send_snapshot turn d b)
  unfolding send_snapshot
  send_snapshot-IsTimed d b = search (keeps_rules, push_snapshot-IsTimed) depth 14

  pub push_store-IsTimed : (d : Text) (r : ℕ) (b : Bool) → Keeps IsTimed (push_store turn d r b)
  unfolding push_store
  push_store-IsTimed d r b =
      search
        (
          keeps_rules,
          wait_for_write-IsTimed turn keep,
          sign-IsTimed,
          send_snapshot-IsTimed,
          note_result-IsTimed,
          close-IsTimed,
        )
        depth 16

  pub push_closed-IsTimed : (d : Text) → Keeps IsTimed (push_closed turn d)
  unfolding push_closed
  push_closed-IsTimed d =
      search
        (
          keeps_rules,
          open_doc-IsTimed,
          push_store-IsTimed,
          drop_flag-IsTimed turn keep,
          close-IsTimed,
        )
        depth 16

  pub push_doc-IsTimed : (d : Text) → Keeps IsTimed (push_doc turn d)
  unfolding push_doc
  push_doc-IsTimed d = search (keeps_rules, push_closed-IsTimed, push_store-IsTimed) depth 16

  pub flush_now-IsTimed : (d : Text) → Keeps IsTimed (flush_now turn d)
  unfolding flush_now
  flush_now-IsTimed d = search (keeps_rules, push_doc-IsTimed, cancel_timer-IsTimed) depth 16

  pub run_started-IsTimed : (w : World p) → IsTimed w → IsTimed (run_started turn w)
  unfolding run_started
  run_started-IsTimed w h =
      elim w.started
        as (λ l.
          IsTimed (elim l [ [] ↦ w | d ∷ ds ↦ (push_doc turn d (record w { started = ds })).1 ])) [
            | [] ↦ h
            | d ∷ ds ↦ (push_doc-IsTimed d).at (record w { started = ds }) h
          ]

  pub flush_one-IsTimed : (d : Text) → Keeps IsTimed (flush_one turn d)
  unfolding flush_one
  flush_one-IsTimed d = search (keeps_rules, push_doc-IsTimed) depth 16

  pub flush_loop-IsTimed : (ds : List Text) → Keeps IsTimed (flush_loop turn ds)
  unfolding flush_loop
  flush_loop-IsTimed [] = Keeps-return tt
  flush_loop-IsTimed (d ∷ ds) =
      Keeps-bind _ _ (flush_one-IsTimed d)
        λ stop. Keeps-if stop _ _ (Keeps-return tt) (flush_loop-IsTimed ds)

  pub flush_all_dirty-IsTimed : Keeps IsTimed (flush_all_dirty turn)
  unfolding flush_all_dirty
  flush_all_dirty-IsTimed = search (keeps_rules, flush_loop-IsTimed, retry_later-IsTimed) depth 16

  pub fire_backoff-IsTimed : Keeps IsTimed (fire_backoff turn)
  unfolding fire_backoff
  fire_backoff-IsTimed = search (keeps_rules, flush_all_dirty-IsTimed, relax-IsTimely) depth 16
