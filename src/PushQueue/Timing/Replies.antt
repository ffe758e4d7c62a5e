-- ===== src/PushQueue/Timing/Replies.antt =====
-- frontend/src/sync/push-queue.ts: the answers of the server keep the debounce window and the
-- backoff delay.
use lunch_loxs.Prelude.{ℕ, ◌≡◌, refl, ◌∙◌, List, [], ◌∷◌, Option, none, some, Text, arith, min, ◌*◌}
use lunch_loxs.Platform.{Platform}
use lunch_loxs.World.{Job, persist, persist_and_mark_dirty, Store, Client, World}
use lunch_loxs.World.Keeps.{Keeps, Keeps-bind, Keeps-return, Keeps-run, keeps_rules}
use lunch_loxs.Store.{
  wait_for_write, clear_dirty, set_last_seq, run_pending, run_jobs, run_job, allocate, encrypt_doc,
}
use lunch_loxs.Manager.{opened}
use lunch_loxs.Client.{PushResult, sent, no_key, not_connected, encrypt_payload, in_client}
use lunch_loxs.PushQueue.Replies.{
  acknowledge, on_ack, drop_flag, discard, ask_discard, permission_error, count_error,
  on_push_error, discard_all,
}
use lunch_loxs.PushQueue.Push.{note_result}
use lunch_loxs.PushQueue.Vaults.{rediscover, discover}
use lunch_loxs.PushQueue.Timing.{IsTimely, IsTimed, settle_ack-IsTimed}
use lunch_loxs.PushQueue.{backoff_max}

pub relax-IsTimely :
    {timers first : List (Text × ℕ)} {b : ℕ}
    → IsTimely timers first b
    → IsTimely timers first (min (b * 2) backoff_max)
relax-IsTimely h = record { window = h.window; backoff = omega (arith, h.backoff) }

module _ {p : Platform} where
  pub run_job-queue : (r : ℕ) (j : Job) (w : World p) → (run_job r j w).queue ≡ w.queue
  unfolding run_job
  run_job-queue r persist w = refl
  run_job-queue r persist_and_mark_dirty w = refl

  pub run_jobs-queue : (r : ℕ) (js : List Job) (w : World p) → (run_jobs r js w).queue ≡ w.queue
  unfolding run_jobs
  run_jobs-queue r [] w = refl
  run_jobs-queue r (j ∷ js) w = run_jobs-queue r js (run_job r j w) ∙ run_job-queue r j w

  pub run_pending-IsTimed : (r : ℕ) (w : World p) → IsTimed w → IsTimed (run_pending r w)
  unfolding run_pending
  run_pending-IsTimed r w h = rw (run_jobs-queue r (w.heap r).pending_write w) h

module _ {p : Platform} where
  pub encrypt_doc-IsTimed : (r : ℕ) → Keeps {p = p} IsTimed (encrypt_doc r)
  unfolding encrypt_doc
  encrypt_doc-IsTimed r = record { at = λ w h. h }

  pub allocate-IsTimed : (s : Store p) → Keeps {p = p} IsTimed (allocate s)
  unfolding allocate
  allocate-IsTimed s = record { at = λ w h. h }

  pub encrypt_payload-IsTimed :
      (k : p.CryptoKey) (b : p.Bytes) → Keeps {p = p} IsTimed (encrypt_payload k b)
  unfolding encrypt_payload
  encrypt_payload-IsTimed k b = record { at = λ w h. h }

  pub opened-IsTimed : (d : Text) (o : Option ℕ) (w : World p) → IsTimed w → IsTimed (opened d o w)
  unfolding opened
  opened-IsTimed d none w h = h
  opened-IsTimed d (some r) w h = h

  pub in_client-IsTimed :
      (f : Client p → Client p) (w : World p) → IsTimed w → IsTimed (in_client f w)
  unfolding in_client
  in_client-IsTimed f w h = ground (arith, h)

  pub note_result-IsTimed :
      (d : Text) (r : ℕ) (heads : List Text) (x : PushResult) (w : World p)
      → IsTimed w
      → IsTimed (note_result d r heads x w)
  unfolding note_result
  note_result-IsTimed d r heads sent w h = h
  note_result-IsTimed d r heads no_key w h = h
  note_result-IsTimed d r heads not_connected w h = h

  pub rediscover-IsTimed : (d : Text) (w : World p) → IsTimed w → IsTimed (rediscover d w)
  unfolding rediscover
  rediscover-IsTimed d w h = ground arith

  pub discover-IsTimed : (ds : List Text) (w : World p) → IsTimed w → IsTimed (discover ds w)
  unfolding discover
  discover-IsTimed [] w h = h
  discover-IsTimed (d ∷ ds) w h = discover-IsTimed ds (rediscover d w) (rediscover-IsTimed d w h)

module _ {p : Platform} (turn : World p → World p)
    (keep : (w : World p) → IsTimed w → IsTimed (turn w)) where
  pub wait_for_write-IsTimed : (r : ℕ) → Keeps IsTimed (wait_for_write turn r)
  unfolding wait_for_write
  wait_for_write-IsTimed r = search (keeps_rules, keep, run_pending-IsTimed) depth 8

  pub clear_dirty-IsTimed : (r : ℕ) → Keeps IsTimed (clear_dirty turn r)
  unfolding clear_dirty
  clear_dirty-IsTimed r = search (keeps_rules, keep) depth 12

  pub set_last_seq-IsTimed : (r n : ℕ) → Keeps IsTimed (set_last_seq turn r n)
  unfolding set_last_seq
  set_last_seq-IsTimed r n = search (keeps_rules, keep) depth 12

  pub drop_flag-IsTimed : (d : Text) → Keeps IsTimed (drop_flag turn d)
  unfolding drop_flag
  drop_flag-IsTimed d = search (keeps_rules, keep) depth 12

  pub acknowledge-IsTimed : (d : Text) (n : ℕ) → Keeps IsTimed (acknowledge turn d n)
  unfolding acknowledge
  acknowledge-IsTimed d n =
      search (keeps_rules, keep, drop_flag-IsTimed, clear_dirty-IsTimed, set_last_seq-IsTimed) depth
        14

  pub on_ack-IsTimed : (d : Text) (n : ℕ) → Keeps IsTimed (on_ack turn d n)
  unfolding on_ack
  on_ack-IsTimed d n = search (keeps_rules, acknowledge-IsTimed, settle_ack-IsTimed) depth 12

  pub discard-IsTimed : (ds : List Text) → Keeps IsTimed (discard turn ds)
  unfolding discard
  discard-IsTimed [] = Keeps-return tt
  discard-IsTimed (d ∷ ds) =
      Keeps-bind _ _ (Keeps-run _ λ w h. h)
        λ _. Keeps-bind _ _ (drop_flag-IsTimed d) λ _. discard-IsTimed ds

  pub ask_discard-IsTimed : (ds : List Text) → Keeps IsTimed (ask_discard turn ds)
  unfolding ask_discard discard_all
  ask_discard-IsTimed [] = Keeps-return tt
  ask_discard-IsTimed (d ∷ ds) = search (keeps_rules, keep, discard-IsTimed) depth 14

  pub permission_error-IsTimed : (d v : Text) → Keeps IsTimed (permission_error turn d v)
  unfolding permission_error
  permission_error-IsTimed d v = search (keeps_rules, ask_discard-IsTimed) depth 12

  pub count_error-IsTimed : (d : Text) → Keeps IsTimed (count_error turn d)
  unfolding count_error
  count_error-IsTimed d = search (keeps_rules, drop_flag-IsTimed) depth 12

  pub on_push_error-IsTimed : (d m : Text) → Keeps IsTimed (on_push_error turn d m)
  unfolding on_push_error
  on_push_error-IsTimed d m =
      search (keeps_rules, permission_error-IsTimed, count_error-IsTimed) depth 12
