-- ===== src/PushQueue/Timing/Loop.antt =====
-- frontend/src/sync/push-queue.ts: the debounce window and the backoff delay hold in every state of
-- a session, whatever happens at each `await`.
use lunch_loxs.Prelude.{
  ℕ, zero, suc, List, [], ◌∷◌, Text, arith, is_some, Option-cases, Bool-cases, leb, inl, inr,
}
use lunch_loxs.Platform.{Platform}
use lunch_loxs.World.{World}
use lunch_loxs.World.Keeps.{
  Keeps, Keeps-bind, Keeps-read, Keeps-return, Keeps-if, Keeps-case_list, keeps_rules,
}
use lunch_loxs.Prelude.Sets.{TextSet}
use lunch_loxs.Storage.{PendingVault}
use lunch_loxs.Store.{get_push_heads}
use lunch_loxs.PushQueue.Vaults.{
  forget_pending, on_vaults_changed, set_pending_vault_ids, update_refs, start, poll_flush, poll,
  clear_if_same, try_clear_dirty_on_caught_up, purge, purge_one, create_one, purge_orphaned_dirty,
  create_pending, create_pending_vaults,
}
use lunch_loxs.PushQueue.Timing.{IsTimed}
use lunch_loxs.PushQueue.Timing.Replies.{
  run_pending-IsTimed, in_client-IsTimed, discover-IsTimed, clear_dirty-IsTimed, drop_flag-IsTimed,
  on_ack-IsTimed, on_push_error-IsTimed,
}
use lunch_loxs.PushQueue.Timing.Push.{
  open_doc-IsTimed, close-IsTimed, flush_now-IsTimed, run_started-IsTimed, flush_all_dirty-IsTimed,
  fire_backoff-IsTimed,
}
use lunch_loxs.Store.{change, apply_changes}
use lunch_loxs.PushQueue.Events.{
  Event, tick, socket, answers, edit, remote, write, opens, closes, marks, flushes_now, caught_up,
  vault_created, acks, push_errors, rate_limits, flushes, vaults_changed, starts, stops,
  pending_ids, purges, creates, reconnects, timer, backoff_timer, poll_timer, runs_started,
  on_backoff_timer, on_poll_timer, repeat_poll, handle, handle_all, interleave, run_events,
}
use lunch_loxs.PushQueue.Timing.{
  mark_dirty-IsTimed, on_rate_limited-IsTimed, stop-IsTimed, fire_timer-IsTimed,
}

module _ {p : Platform} (turn : World p → World p)
    (keep : (w : World p) → IsTimed w → IsTimed (turn w)) where
  start-IsTimed : Keeps IsTimed (start turn)
  unfolding start
  start-IsTimed = search (keeps_rules, keep) depth 16

  poll_flush-IsTimed : Keeps IsTimed (poll_flush turn)
  unfolding poll_flush
  poll_flush-IsTimed = Keeps-bind _ _ (Keeps-read λ w. w.queue.dirty_set) λ dirty.
      Keeps-bind _ _ (Keeps-read λ w. is_some w.queue.backoff_timer) λ waiting.
        Keeps-case_list dirty _ _ (Keeps-return tt)
          λ d ds. Keeps-if waiting _ _ (Keeps-return tt) (flush_all_dirty-IsTimed turn keep)

  poll-IsTimed : Keeps IsTimed (poll turn)
  unfolding poll
  poll-IsTimed = search (keeps_rules, keep, discover-IsTimed, poll_flush-IsTimed) depth 16

  get_push_heads-IsTimed : (r : ℕ) → Keeps IsTimed (get_push_heads turn r)
  unfolding get_push_heads
  get_push_heads-IsTimed r = search (keeps_rules, keep) depth 16

  clear_if_same-IsTimed :
      (d : Text) (r : ℕ) (heads : List Text) → Keeps IsTimed (clear_if_same turn d r heads)
  unfolding clear_if_same
  clear_if_same-IsTimed d r heads = search (keeps_rules, clear_dirty-IsTimed turn keep) depth 16

  caught_up-IsTimed : (d : Text) → Keeps IsTimed (try_clear_dirty_on_caught_up turn d)
  unfolding try_clear_dirty_on_caught_up
  caught_up-IsTimed d = search (keeps_rules, get_push_heads-IsTimed, clear_if_same-IsTimed) depth 16

  purge_one-IsTimed : (known : TextSet) (d : Text) → Keeps IsTimed (purge_one turn known d)
  unfolding purge_one
  purge_one-IsTimed known d = search (keeps_rules, drop_flag-IsTimed turn keep) depth 16

  purge-IsTimed : (known : TextSet) (ds : List Text) → Keeps IsTimed (purge turn known ds)
  unfolding purge
  purge-IsTimed known [] = Keeps-return tt
  purge-IsTimed known (d ∷ ds) =
      Keeps-bind _ _ (purge_one-IsTimed known d) λ _. purge-IsTimed known ds

  purge_orphaned_dirty-IsTimed : (known : TextSet) → Keeps IsTimed (purge_orphaned_dirty turn known)
  unfolding purge_orphaned_dirty
  purge_orphaned_dirty-IsTimed known = search (keeps_rules, purge-IsTimed) depth 16

  create_one-IsTimed :
      (known : TextSet) (pv : PendingVault) → Keeps IsTimed (create_one turn known pv)
  unfolding create_one
  create_one-IsTimed known pv = search (keeps_rules, keep, in_client-IsTimed) depth 16

  create_pending-IsTimed :
      (known : TextSet) (pvs : List PendingVault) → Keeps IsTimed (create_pending turn known pvs)
  unfolding create_pending
  create_pending-IsTimed known [] = Keeps-return tt
  create_pending-IsTimed known (pv ∷ pvs) =
      Keeps-bind _ _ (create_one-IsTimed known pv)
        λ stop. Keeps-if stop _ _ (Keeps-return tt) (create_pending-IsTimed known pvs)

  create_pending_vaults-IsTimed :
      (known : TextSet) → Keeps IsTimed (create_pending_vaults turn known)
  unfolding create_pending_vaults
  create_pending_vaults-IsTimed known = search (keeps_rules, keep, create_pending-IsTimed) depth 16

  apply_changes-IsTimed :
      (r : ℕ) (cs : List p.Bytes) (w : World p) → IsTimed w → IsTimed (apply_changes r cs w)
  unfolding apply_changes
  apply_changes-IsTimed r [] w h = h
  apply_changes-IsTimed r (c ∷ cs) w h = h

  change-IsTimed : (r : ℕ) (fn : p.Doc → p.Doc) (w : World p) → IsTimed w → IsTimed (change r fn w)
  unfolding change
  change-IsTimed r fn w h = h

  on_backoff_timer-IsTimed : (w : World p) → IsTimed w → IsTimed (on_backoff_timer turn w)
  unfolding on_backoff_timer
  on_backoff_timer-IsTimed w h = ground (arith, (fire_backoff-IsTimed turn keep).at w h)

  on_poll_timer-IsTimed : (w : World p) → IsTimed w → IsTimed (on_poll_timer turn w)
  unfolding on_poll_timer
  on_poll_timer-IsTimed w h = elim (Option-cases w.queue.poll_timer) [
    | inl off ↦ rw (off, on_poll_timer) h
    | inr (t, at) ↦ elim (Bool-cases (leb t w.now)) [
      | inl due ↦ rw (at, on_poll_timer) (rw due (poll-IsTimed.at (repeat_poll t w) h))
      | inr early ↦ rw (at, on_poll_timer) (rw early h)
    ]
  ]

  -- Every event keeps the window and the delay if what runs at an `await` does.
  pub handle-IsTimed : (e : Event p) (w : World p) → IsTimed w → IsTimed (handle turn e w)
  unfolding handle forget_pending on_vaults_changed set_pending_vault_ids update_refs
  handle-IsTimed (tick n) w h = h
  handle-IsTimed (socket b) w h = in_client-IsTimed _ w h
  handle-IsTimed (answers a) w h = h
  handle-IsTimed (edit r fn) w h = change-IsTimed r fn w h
  handle-IsTimed (remote r cs) w h = apply_changes-IsTimed r cs w h
  handle-IsTimed (write r) w h = run_pending-IsTimed r w h
  handle-IsTimed (opens d fn) w h = (open_doc-IsTimed turn keep d fn).at w h
  handle-IsTimed (closes d) w h = (close-IsTimed turn keep d).at w h
  handle-IsTimed (marks d) w h = mark_dirty-IsTimed d w h
  handle-IsTimed (flushes_now d) w h = (flush_now-IsTimed turn keep d).at w h
  handle-IsTimed (caught_up d) w h = (caught_up-IsTimed d).at w h
  handle-IsTimed (vault_created v) w h = h
  handle-IsTimed (acks d seq) w h = (on_ack-IsTimed turn keep d seq).at w h
  handle-IsTimed (push_errors d message) w h = (on_push_error-IsTimed turn keep d message).at w h
  handle-IsTimed (rate_limits retry) w h = on_rate_limited-IsTimed retry w h
  handle-IsTimed flushes w h = (flush_all_dirty-IsTimed turn keep).at w h
  handle-IsTimed vaults_changed w h = h
  handle-IsTimed starts w h = start-IsTimed.at w h
  handle-IsTimed stops w h = stop-IsTimed w h
  handle-IsTimed (pending_ids ids) w h = h
  handle-IsTimed (purges known) w h = (purge_orphaned_dirty-IsTimed known).at w h
  handle-IsTimed (creates known) w h = (create_pending_vaults-IsTimed known).at w h
  handle-IsTimed (reconnects m c sign_fn) w h = h
  handle-IsTimed (timer d) w h = fire_timer-IsTimed d w h
  handle-IsTimed backoff_timer w h = on_backoff_timer-IsTimed w h
  handle-IsTimed poll_timer w h = on_poll_timer-IsTimed w h
  handle-IsTimed runs_started w h = run_started-IsTimed turn keep w h

  handle_all-IsTimed :
      (es : List (Event p)) (w : World p) → IsTimed w → IsTimed (handle_all turn es w)
  unfolding handle_all
  handle_all-IsTimed [] w h = h
  handle_all-IsTimed (e ∷ es) w h = handle_all-IsTimed es (handle turn e w) (handle-IsTimed e w h)

module _ {p : Platform} (choose : World p → List (Event p)) where
  interleave-IsTimed : (n : ℕ) (w : World p) → IsTimed w → IsTimed (interleave choose n w)
  unfolding interleave
  interleave-IsTimed zero w h = h
  interleave-IsTimed (suc n) w h =
      handle_all-IsTimed (interleave choose n) (interleave-IsTimed n) (choose w) w h

-- From a session whose timers are within their windows, any history, with any events in between at
-- any `await`, leads to one whose timers are: each fires within 1500 ms of the first change that is
-- noted for it; and the backoff delay is never below 2000 ms.
run_events-IsTimed :
    {p : Platform} (choose : World p → List (Event p)) (n : ℕ) (es : List (Event p)) (w : World p)
    → IsTimed w
    → IsTimed (run_events choose n es w)
unfolding run_events
run_events-IsTimed choose n es w h =
    handle_all-IsTimed (interleave choose n) (interleave-IsTimed choose n) es w h
