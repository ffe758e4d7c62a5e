-- ===== src/Connection/Heartbeat.antt =====
-- frontend/src/lib/sync-client.ts: pings that detect a dead connection, reconnection, and the end.
use lunch_loxs.Prelude.{
  ℕ, suc, ◌+◌, ◌*◌, min, true, false, List, [], ◌∷◌, none, some, if◌then◌else◌, ◌==◌, leb,
}
use lunch_loxs.Platform.{Platform}
use lunch_loxs.World.{connect, ping}
use lunch_loxs.Connection.{
  Connection, heartbeat_interval, heartbeat_timeout_ms, first_delay, longest_delay, connecting,
  disconnected, on_status_change, call, send_msg, close_socket,
}
use lunch_loxs.Connection.Requests.{reject_lookups}

unfoldable pub clear_timeout : ℕ → List (ℕ × ℕ) → List (ℕ × ℕ)
clear_timeout id [] = []
clear_timeout id ((i, due) ∷ ts) =
    if i == id then clear_timeout id ts else (i, due) ∷ clear_timeout id ts

module _ {p : Platform} where
  unfoldable pub clear_heartbeat_timeout : Connection p → Connection p
  unfolding clear_timeout
  clear_heartbeat_timeout s = elim s.heartbeat_timeout [
    | none ↦ s
    | some id ↦ record s { heartbeat_timeout = none; timeouts = clear_timeout id s.timeouts }
  ]

  -- `this.heartbeatTimeout = setTimeout(…, HEARTBEAT_TIMEOUT)`
  unfoldable pub set_heartbeat_timeout : Connection p → Connection p
  set_heartbeat_timeout s = record s {
    heartbeat_timeout = some s.next_timeout;
    timeouts = (s.next_timeout, s.now + heartbeat_timeout_ms) ∷ s.timeouts;
    next_timeout = suc s.next_timeout;
  }

  -- The callback of the interval.
  unfoldable pub heartbeat : Connection p → Connection p
  unfolding send_msg set_heartbeat_timeout
  heartbeat s = if s.client.ws_open then set_heartbeat_timeout (send_msg ping s) else s

  -- The interval fires at its time, again and again.
  unfoldable pub fire_heartbeat : Connection p → Connection p
  unfolding heartbeat
  fire_heartbeat s = elim s.heartbeat_timer [
    | none ↦ s
    | some t ↦
        if leb t s.now
        then heartbeat (record s { heartbeat_timer = some (t + heartbeat_interval) })
        else s
  ]

  -- The handler of the browser's events.
  unfoldable pub probe : Connection p → Connection p
  unfolding send_msg set_heartbeat_timeout clear_heartbeat_timeout
  probe s =
      if s.client.ws_open
      then set_heartbeat_timeout (clear_heartbeat_timeout (send_msg ping s))
      else s

  unfoldable pub stop_heartbeat : Connection p → Connection p
  unfolding clear_heartbeat_timeout
  stop_heartbeat s = clear_heartbeat_timeout (record s { heartbeat_timer = none })

  unfoldable pub start_heartbeat : Connection p → Connection p
  unfolding stop_heartbeat
  start_heartbeat s = record (stop_heartbeat s) {
    heartbeat_timer = some (s.now + heartbeat_interval);
  }

  -- The timeouts of the list that are due: each closes the connection.
  unfoldable pub fire_timeouts : List (ℕ × ℕ) → Connection p → Connection p
  unfolding clear_timeout close_socket
  fire_timeouts [] s = s
  fire_timeouts ((id, due) ∷ ts) s = fire_timeouts ts (
      if leb due s.now
      then close_socket (
          call (on_status_change disconnected)
            (record s { timeouts = clear_timeout id s.timeouts }))
      else s)

  -- `onopen`
  unfoldable pub on_open : Connection p → Connection p
  unfolding send_msg start_heartbeat
  on_open s = start_heartbeat (
      send_msg (connect s.is_signup)
        (record s { client = record (s.client) { ws_open = true }; reconnect_delay = first_delay }))

  -- `connect()`: a new socket, which is not open yet
  unfoldable pub connect_socket : Connection p → Connection p
  unfolding close_socket
  connect_socket s =
      close_socket
        (record (call (on_status_change connecting) (record s { intentional_close = false })) {
          listening = true;
        })

  unfoldable pub schedule_reconnect : Connection p → Connection p
  schedule_reconnect s = record s { reconnect_timer = some (s.now + s.reconnect_delay) }

  -- The callback of the reconnect timer, at its time.
  unfoldable pub fire_reconnect : Connection p → Connection p
  unfolding connect_socket
  fire_reconnect s = elim s.reconnect_timer [
    | none ↦ s
    | some t ↦
        if leb t s.now
        then connect_socket (record s {
          reconnect_timer = none;
          reconnect_delay = min (s.reconnect_delay * 2) longest_delay;
        })
        else s
  ]

  -- `onclose`
  unfoldable pub on_close : Connection p → Connection p
  unfolding stop_heartbeat schedule_reconnect close_socket
  on_close s =
      let stopped = call (on_status_change disconnected) (stop_heartbeat (close_socket s)) in
      if stopped.intentional_close then stopped else schedule_reconnect stopped

  -- `disconnect()`
  unfoldable pub disconnect : Connection p → Connection p
  unfolding stop_heartbeat close_socket reject_lookups
  disconnect s =
      let stopped = record (stop_heartbeat (record s { intentional_close = true })) {
        listening = false;
        reconnect_timer = none;
      } in
      close_socket
        (record (reject_lookups stopped.lookup_resolvers stopped) { lookup_resolvers = [] })
