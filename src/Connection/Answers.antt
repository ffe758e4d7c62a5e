-- ===== src/Connection/Answers.antt =====
-- frontend/src/lib/sync-client.ts: every promise is settled in time, whatever happens.
use lunch_loxs.Prelude.{
  ℕ, zero, suc, ◌+◌, ◌≤◌, ◌<◌, ◌≡◌, ◌||◌, refl, true, false, List, [], ◌∷◌, Text, arith, All,
  Bool-cases, inl, inr, leb,
}
use lunch_loxs.Platform.{Platform}
use lunch_loxs.Connection.{RequestTimer, Connection, request_timeout_ms}
use lunch_loxs.Connection.Requests.{has_request, is_settled, settle, time_out, fire_requests}
use lunch_loxs.Connection.Heartbeat.{
  fire_heartbeat, probe, fire_timeouts, on_open, connect_socket, fire_reconnect, on_close,
}
use lunch_loxs.Connection.Messages.{unsubscribe_doc, send_presence}
use lunch_loxs.Connection.Actions.{
  Action, act, act_all, mix, run_actions, tick, heartbeat_timer, request_timers, timeouts,
  reconnect_timer, opens, closes, probes, receives, connects, disconnects, awaits, looks_up,
  unsubscribes, subscribes, shows, sends,
}
use lunch_loxs.Connection.Pending.{
  IsAnswered, All-later, await_confirmation-IsAnswered, look_up_user-IsAnswered,
  fire_requests-IsAnswered,
}
use lunch_loxs.Connection.{confirmation, lookup}
use lunch_loxs.Connection.Requests.{forget_confirm, forget_lookup}
use lunch_loxs.Connection.Untouched.{
  like-IsAnswered, fire_heartbeat-IsLike, probe-IsLike, fire_timeouts-IsLike, on_open-IsLike,
  fire_reconnect-IsLike, on_close-IsLike, disconnect-IsAnswered,
}
use lunch_loxs.Connection.Received.{on_message-IsAnswered, subscribe_doc-IsAnswered}

module _ {p : Platform} (turn : Connection p → Connection p) (last_seq : Text → ℕ)
    (keep : (s : Connection p) → IsAnswered s → IsAnswered (turn s)) where
  tick-IsAnswered :
      (n : ℕ) (s : Connection p) → IsAnswered s → IsAnswered (record s { now = s.now + n })
  tick-IsAnswered n s h = record {
    answered = h.answered;
    soon =
        All-later (s.now + request_timeout_ms) (s.now + n + request_timeout_ms) s.request_timers
          (omega arith) h.soon;
  }

  act-IsAnswered :
      (a : Action p) (s : Connection p) → IsAnswered s → IsAnswered (act last_seq turn a s)
  unfolding act connect_socket unsubscribe_doc send_presence
  act-IsAnswered (tick n) s h = tick-IsAnswered n s h
  act-IsAnswered heartbeat_timer s h =
      like-IsAnswered s (fire_heartbeat s) (fire_heartbeat-IsLike s) h
  act-IsAnswered request_timers s h = fire_requests-IsAnswered s.request_timers s h
  act-IsAnswered timeouts s h =
      like-IsAnswered s (fire_timeouts s.timeouts s) (fire_timeouts-IsLike s.timeouts s) h
  act-IsAnswered reconnect_timer s h =
      like-IsAnswered s (fire_reconnect s) (fire_reconnect-IsLike s) h
  act-IsAnswered opens s h = like-IsAnswered s (on_open s) (on_open-IsLike s) h
  act-IsAnswered closes s h = like-IsAnswered s (on_close s) (on_close-IsLike s) h
  act-IsAnswered probes s h = like-IsAnswered s (probe s) (probe-IsLike s) h
  act-IsAnswered (receives msg) s h = on_message-IsAnswered turn last_seq keep msg s h
  act-IsAnswered connects s h = h
  act-IsAnswered disconnects s h = disconnect-IsAnswered s h
  act-IsAnswered (awaits key m) s h = await_confirmation-IsAnswered key m s h
  act-IsAnswered (looks_up user) s h = look_up_user-IsAnswered user s h
  act-IsAnswered (unsubscribes d) s h = h
  act-IsAnswered (subscribes d seq) s h = subscribe_doc-IsAnswered turn last_seq keep d seq s h
  act-IsAnswered (shows d cursor) s h = h
  act-IsAnswered (sends m) s h = h

  act_all-IsAnswered :
      (as' : List (Action p)) (s : Connection p)
      → IsAnswered s
      → IsAnswered (act_all last_seq turn as' s)
  unfolding act_all
  act_all-IsAnswered [] s h = h
  act_all-IsAnswered (a ∷ as') s h =
      act_all-IsAnswered as' (act last_seq turn a s) (act-IsAnswered a s h)

module _ {p : Platform} (last_seq : Text → ℕ) (choose : Connection p → List (Action p)) where
  mix-IsAnswered : (n : ℕ) (s : Connection p) → IsAnswered s → IsAnswered (mix last_seq choose n s)
  unfolding mix
  mix-IsAnswered zero s h = h
  mix-IsAnswered (suc n) s h =
      act_all-IsAnswered (mix last_seq choose n) last_seq (mix-IsAnswered n) (choose s) s h

  pub run_actions-IsAnswered :
      (n : ℕ) (as' : List (Action p)) (s : Connection p)
      → IsAnswered s
      → IsAnswered (run_actions last_seq choose n as' s)
  unfolding run_actions
  run_actions-IsAnswered n as' s h =
      act_all-IsAnswered (mix last_seq choose n) last_seq (mix-IsAnswered n) as' s h

module _ {p : Platform} where
  time_out_lem :
      (t : RequestTimer) (s : Connection p)
      → ((time_out t s).now ≡ s.now) × ((time_out t s).settled ≡ (t.id, false) ∷ s.settled)
  unfolding time_out settle
  time_out_lem t s =
      elim t.awaited
        as (λ a.
          let forgotten : Connection p = elim a [
            | confirmation key ↦ forget_confirm key s
            | lookup user ↦ forget_lookup user s
          ] in
          (forgotten.now ≡ s.now)
          × ((t.id, false) ∷ forgotten.settled ≡ (t.id, false) ∷ s.settled)) [
            | confirmation key ↦ (refl, refl)
            | lookup user ↦ (refl, refl)
          ]

  fire_requests-settles :
      (i : ℕ) (ts : List RequestTimer) (s : Connection p)
      → All (λ t. t.due ≤ s.now) ts
      → (is_settled i s.settled || has_request i ts) ≡ true
      → is_settled i (fire_requests ts s).settled ≡ true
  unfolding fire_requests has_request is_settled
  fire_requests-settles i [] s due h = ground arith
  fire_requests-settles i (t ∷ ts) s (now_due, due) h =
      let e = time_out_lem t s in
      elim (Bool-cases (leb t.due s.now)) [
        | inl fires ↦
            rw (fires, fire_requests)
              (fire_requests-settles i ts (time_out t s) (rw e.0 due) (ground (arith, e.1, h)))
        | inr early ↦ ground (arith, early, now_due)
      ]

-- From a connection with no promise made, after any history with any actions in between at any
-- `await`: 10000 ms later, when the timers that are then due have fired, every promise that was made
-- for a confirmation or a lookup is settled.
pub run_actions-settles :
    {p : Platform} (last_seq : Text → ℕ) (choose : Connection p → List (Action p)) (n i : ℕ)
    (as' : List (Action p)) (s : Connection p)
    → s.next_promise ≡ 0
    → s.request_timers ≡ []
    → i < (run_actions last_seq choose n as' s).next_promise
    → let s' = run_actions last_seq choose n as' s in
      let later = record s' { now = s'.now + request_timeout_ms } in
      is_settled i (fire_requests later.request_timers later).settled ≡ true
run_actions-settles last_seq choose n i as' s new none_timed made =
    let s' = run_actions last_seq choose n as' s in
    let later = record s' { now = s'.now + request_timeout_ms } in
    let h =
      run_actions-IsAnswered last_seq choose n as' s
        (record { answered = λ j k. ground (arith, new); soon = rw none_timed tt }) in
    fire_requests-settles i later.request_timers later h.soon (h.answered i made)
