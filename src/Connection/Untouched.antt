-- ===== src/Connection/Untouched.antt =====
-- frontend/src/lib/sync-client.ts: what the heartbeat, the reconnection and the end of a connection do
-- to the promises.
use lunch_loxs.Prelude.{
  ℕ, ◌≡◌, refl, true, false, List, [], ◌∷◌, none, codes, text_eq, arith, Bool-cases, inl, inr,
  or_default,
}
use lunch_loxs.Platform.{Platform}
use lunch_loxs.Connection.{Connection, close_socket, call, on_status_change, disconnected}
use lunch_loxs.Connection.Requests.{reject_confirms}
use lunch_loxs.Connection.Heartbeat.{
  clear_timeout, clear_heartbeat_timeout, heartbeat, fire_heartbeat, probe, stop_heartbeat,
  fire_timeouts, on_open, fire_reconnect, on_close, disconnect,
}
use lunch_loxs.Connection.Messages.{ServerMessage, is_auth_error, handle_error}
use lunch_loxs.Connection.Pending.{
  IsAnswered, reject_confirms-IsAnswered, reject_lookups-IsAnswered,
}

module _ {p : Platform} where
  -- Both have the same promises, settled and timed alike.
  abbrev pub IsLike : Connection p → Connection p → Type 0
  IsLike s t =
      (t.settled ≡ s.settled)
      × (t.request_timers ≡ s.request_timers)
      × (t.next_promise ≡ s.next_promise)
      × (t.now ≡ s.now)

  pub like-IsAnswered : (s t : Connection p) → IsLike s t → IsAnswered s → IsAnswered t
  like-IsAnswered s t (a, b, c, d) h = rw (a, b, c, d) h

  pub clear_heartbeat_timeout-IsLike : (s : Connection p) → IsLike s (clear_heartbeat_timeout s)
  unfolding clear_heartbeat_timeout
  clear_heartbeat_timeout-IsLike s = ground arith

  heartbeat-IsLike : (s : Connection p) → IsLike s (heartbeat s)
  unfolding heartbeat
  heartbeat-IsLike s = ground arith

  pub fire_heartbeat-IsLike : (s : Connection p) → IsLike s (fire_heartbeat s)
  unfolding fire_heartbeat
  fire_heartbeat-IsLike s = ground arith

  pub probe-IsLike : (s : Connection p) → IsLike s (probe s)
  unfolding probe
  probe-IsLike s = ground arith

  pub stop_heartbeat-IsLike : (s : Connection p) → IsLike s (stop_heartbeat s)
  unfolding stop_heartbeat
  stop_heartbeat-IsLike s = clear_heartbeat_timeout-IsLike (record s { heartbeat_timer = none })

  pub fire_timeouts-IsLike : (ts : List (ℕ × ℕ)) (s : Connection p) → IsLike s (fire_timeouts ts s)
  unfolding fire_timeouts
  fire_timeouts-IsLike [] s = (refl, refl, refl, refl)
  fire_timeouts-IsLike ((i, due) ∷ ts) s =
      let ended = close_socket (
        call (on_status_change disconnected)
          (record s { timeouts = clear_timeout i s.timeouts })) in
      ground (arith, fire_timeouts-IsLike ts ended, fire_timeouts-IsLike ts s)

  pub on_open-IsLike : (s : Connection p) → IsLike s (on_open s)
  unfolding on_open
  on_open-IsLike s = ground arith

  pub fire_reconnect-IsLike : (s : Connection p) → IsLike s (fire_reconnect s)
  unfolding fire_reconnect
  fire_reconnect-IsLike s = ground arith

  pub on_close-IsLike : (s : Connection p) → IsLike s (on_close s)
  unfolding on_close
  on_close-IsLike s = ground arith

  pub disconnect-IsAnswered : (s : Connection p) → IsAnswered s → IsAnswered (disconnect s)
  unfolding disconnect
  disconnect-IsAnswered s h =
      let ending = record s { intentional_close = true } in
      let stopped = record (stop_heartbeat ending) { listening = false; reconnect_timer = none } in
      reject_lookups-IsAnswered stopped.lookup_resolvers stopped
        (like-IsAnswered s stopped (stop_heartbeat-IsLike ending) h)

  pub handle_error-IsAnswered :
      (msg : ServerMessage p.Bytes) (s : Connection p)
      → IsAnswered s
      → IsAnswered (handle_error msg s)
  unfolding handle_error
  handle_error-IsAnswered msg s h =
      let m = or_default msg.message [] in
      let refused = reject_confirms s.confirm_resolvers s in
      let answered =
        reject_lookups-IsAnswered refused.lookup_resolvers refused
          (reject_confirms-IsAnswered s.confirm_resolvers s h) in
      elim (Bool-cases (is_auth_error m)) [
        | inl auth ↦ rw (auth, handle_error) h
        | inr no_auth ↦ elim (Bool-cases (text_eq m (codes "rate_limited"))) [
          | inl rate ↦ rw (no_auth, handle_error) (rw rate h)
          | inr none_left ↦ rw (no_auth, handle_error) (rw none_left answered)
        ]
      ]
