-- ===== src/Connection.antt =====
-- frontend/src/lib/sync-client.ts, class SyncClient: the connection, its timers, the promises that
-- wait for the server, and the subscriptions. What a push reads and writes of the class is Client.
-- A timer is the time at which it fires; a promise is a number. The address, the device and the
-- wrapped keys, which are sent as they are, are left out.
pub mod Requests
pub mod Calls
pub mod Confirmed
pub mod Heartbeat
pub mod Messages
pub mod Actions
pub mod Pending
pub mod Untouched
pub mod Received
pub mod Answers
pub mod Probes
pub mod Resubscribing
use lunch_loxs.Prelude.{
  ℕ, suc, ◌+◌, min, Bool, true, false, not, ◌||◌, List, [], ◌∷◌, ◌++◌, Option, none, some, Text,
  if◌then◌else◌, ◌==◌, leb,
}
use lunch_loxs.Prelude.Sets.{TextSet}
use lunch_loxs.Platform.{Platform}
use lunch_loxs.World.{Outgoing, connect, Client}
use lunch_loxs.Client.{send}

abbrev pub heartbeat_interval : ℕ
heartbeat_interval = 25000

abbrev pub heartbeat_timeout_ms : ℕ
heartbeat_timeout_ms = 3000

abbrev pub request_timeout_ms : ℕ
request_timeout_ms = 10000

abbrev pub first_delay : ℕ
first_delay = 1000

abbrev pub longest_delay : ℕ
longest_delay = 30000

-- For what a promise waits: a confirmation by its type, or the lookup of a user.
pub data Awaited : Type 0 where
  confirmation : Text → Awaited
  lookup : Text → Awaited

-- The timer of a promise.
pub record RequestTimer : Type 0 where
  pub id : ℕ
  pub due : ℕ
  pub awaited : Awaited

pub data SyncStatus : Type 0 where
  connecting connected disconnected : SyncStatus

-- The calls of the callbacks in `opts`.
pub data Call (Bytes : Type 0) : Type 0 where
  on_status_change : SyncStatus → Call Bytes
  on_connected : Option Text → Call Bytes
  on_remote_change : Text → Bytes → ℕ → Option Text → Call Bytes
  on_caught_up on_ack : Text → ℕ → Call Bytes
  on_push_error : Text → Text → Call Bytes
  on_presence : Text → Text → Text → Option Text → Call Bytes
  on_rate_limited : Option ℕ → Call Bytes
  on_auth_error : Text → Call Bytes
  on_purged on_password_changed on_vault_list : Call Bytes
  on_vault_created on_vault_removed on_vault_deleted on_vault_members : Text → Call Bytes
  on_vault_key_rotated : Text → Call Bytes
  on_vault_invited on_role_changed : Text → Text → Text → Call Bytes
  on_ownership_transferred on_ownership_received : Text → Text → Call Bytes

module _ (p : Platform) where
  pub record Connection : Type 0 where
    pub client : Client p
    pub is_signup : Bool
    pub reconnect_delay : ℕ
    pub reconnect_timer : Option ℕ
    pub intentional_close : Bool
    pub subscriptions : TextSet
    pub last_seqs : List (Text × ℕ)
    pub heartbeat_timer : Option ℕ
    -- the field `heartbeatTimeout` names one of the timeouts that the browser still has
    pub heartbeat_timeout : Option ℕ
    pub timeouts : List (ℕ × ℕ)
    pub listening : Bool
    -- the maps of resolvers, the timers of their promises, and the promises that are settled
    pub confirm_resolvers : List (Text × ℕ)
    pub lookup_resolvers : List (Text × ℕ)
    pub request_timers : List RequestTimer
    pub settled : List (ℕ × Bool)
    pub next_promise : ℕ
    pub calls : List (Call p.Bytes)
    pub now : ℕ
    pub next_timeout : ℕ

module _ {p : Platform} where
  abbrev pub call : Call p.Bytes → Connection p → Connection p
  call f s = record s { calls = s.calls ++ f ∷ [] }

  -- `if (this.ws?.readyState === WebSocket.OPEN) this.ws.send(…)`
  unfoldable pub send_msg : Outgoing p.Bytes → Connection p → Connection p
  unfolding send
  send_msg m s = record s { client = send m s.client }

  -- `this.ws?.close()`: from then on the socket is not open.
  unfoldable pub close_socket : Connection p → Connection p
  close_socket s = record s { client = record (s.client) { ws_open = false } }
