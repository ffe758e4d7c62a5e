-- ===== src/Connection/Actions.antt =====
-- frontend/src/lib/sync-client.ts: what may happen to a connection, one action after another, and
-- at each `await` of an action again.
use lunch_loxs.Prelude.{ℕ, zero, suc, ◌+◌, List, [], ◌∷◌, Option, Text}
use lunch_loxs.Platform.{Platform}
use lunch_loxs.World.{Outgoing}
use lunch_loxs.Connection.{Connection, send_msg}
use lunch_loxs.Connection.Requests.{await_confirmation, look_up_user, fire_requests}
use lunch_loxs.Connection.Heartbeat.{
  fire_heartbeat, probe, fire_timeouts, on_open, connect_socket, fire_reconnect, on_close,
  disconnect,
}
use lunch_loxs.Connection.Messages.{
  ServerMessage, subscribe_doc, unsubscribe_doc, send_presence, on_message,
}

pub data Action (p : Platform) : Type 0 where
  -- the clock and the timers
  tick : ℕ → Action p
  heartbeat_timer request_timers timeouts reconnect_timer : Action p
  -- the socket and the browser
  opens closes probes : Action p
  receives : ServerMessage p.Bytes → Action p
  -- calls of the client
  connects disconnects : Action p
  awaits : Text → Outgoing p.Bytes → Action p
  looks_up unsubscribes : Text → Action p
  subscribes : Text → Option ℕ → Action p
  shows : Text → Text → Action p
  sends : Outgoing p.Bytes → Action p

module _ {p : Platform} (last_seq : Text → ℕ) where
  unfoldable pub act : (Connection p → Connection p) → Action p → Connection p → Connection p
  unfolding send_msg
  act turn (tick n) s = record s { now = s.now + n }
  act turn heartbeat_timer s = fire_heartbeat s
  act turn request_timers s = fire_requests s.request_timers s
  act turn timeouts s = fire_timeouts s.timeouts s
  act turn reconnect_timer s = fire_reconnect s
  act turn opens s = on_open s
  act turn closes s = on_close s
  act turn probes s = probe s
  act turn (receives msg) s = on_message turn last_seq msg s
  act turn connects s = connect_socket s
  act turn disconnects s = disconnect s
  act turn (awaits key m) s = await_confirmation key m s
  act turn (looks_up user) s = look_up_user user s
  act turn (unsubscribes d) s = unsubscribe_doc d s
  act turn (subscribes d seq) s = subscribe_doc turn last_seq d seq s
  act turn (shows d cursor) s = send_presence d cursor s
  act turn (sends m) s = send_msg m s

  unfoldable pub act_all :
      (Connection p → Connection p) → List (Action p) → Connection p → Connection p
  unfolding act
  act_all turn [] s = s
  act_all turn (a ∷ as') s = act_all turn as' (act turn a s)

  -- What runs at an `await`: the actions that `choose` picks, down to the depth `n`.
  unfoldable pub mix : (Connection p → List (Action p)) → ℕ → Connection p → Connection p
  unfolding act_all
  mix choose zero s = s
  mix choose (suc n) s = act_all (mix choose n) (choose s) s

  -- A history of a connection.
  unfoldable pub run_actions :
      (Connection p → List (Action p)) → ℕ → List (Action p) → Connection p → Connection p
  unfolding act_all mix
  run_actions choose n as' s = act_all (mix choose n) as' s
