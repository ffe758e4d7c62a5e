-- ===== src/Connection/Probes.antt =====
-- frontend/src/lib/sync-client.ts: a probe shortly before a heartbeat.
use lunch_loxs.Prelude.{
  ℕ, ◌+◌, ◌≤◌, ◌<◌, ◌≡◌, refl, ap, ◌∙◌, true, false, List, [], ◌∷◌, none, some, Text, arith, All,
}
use lunch_loxs.Platform.{Platform}
use lunch_loxs.Connection.{Connection, heartbeat_timeout_ms}
use lunch_loxs.Connection.Heartbeat.{clear_heartbeat_timeout, fire_heartbeat, probe, fire_timeouts}
use lunch_loxs.Connection.Messages.{ServerMessage, other, on_message, handle_message, dispatch}

module _ {p : Platform} (turn : Connection p → Connection p) (last_seq : Text → ℕ) where
  -- Messages that come one after the other.
  unfoldable pub answers : List (ServerMessage p.Bytes) → Connection p → Connection p
  unfolding on_message
  answers [] s = s
  answers (m ∷ ms) s = answers ms (on_message turn last_seq m s)

  -- The browser's event at the time of `s`, the heartbeat at `t`, no message in between, and then the
  -- answers of the server.
  unfoldable pub probed_and_answered :
      ℕ → List (ServerMessage p.Bytes) → Connection p → Connection p
  unfolding probe fire_heartbeat answers
  probed_and_answered t pongs s = answers pongs (fire_heartbeat (record (probe s) { now = t }))

  clear_none : (s : Connection p) → s.heartbeat_timeout ≡ none → clear_heartbeat_timeout s ≡ s
  unfolding clear_heartbeat_timeout
  clear_none s e = ground (arith, e)

  dispatch_other :
      (m : ServerMessage p.Bytes) (s : Connection p)
      → m.type ≡ other
      → handle_message turn last_seq m s ≡ s
  unfolding handle_message dispatch
  dispatch_other m s e = ap (λ t. dispatch turn last_seq t m s) e

  -- With no timeout known, an answer changes nothing.
  answers_settled :
      (pongs : List (ServerMessage p.Bytes)) (s : Connection p)
      → All (λ m. m.type ≡ other) pongs
      → s.heartbeat_timeout ≡ none
      → answers pongs s ≡ s
  unfolding answers on_message
  answers_settled [] s h e = refl
  answers_settled (m ∷ ms) s (k, h) e =
      ap (λ t. answers ms (handle_message turn last_seq m t)) (clear_none s e)
      ∙ ap (answers ms) (dispatch_other m s k)
      ∙ answers_settled ms s h e

first_answer :
    {p : Platform} (turn : Connection p → Connection p) (last_seq : Text → ℕ) (t : ℕ)
    (pong : ServerMessage p.Bytes) (s : Connection p)
    → s.client.ws_open ≡ true
    → s.heartbeat_timeout ≡ none
    → s.timeouts ≡ []
    → s.heartbeat_timer ≡ some t
    → s.now ≤ t
    → t < s.now + heartbeat_timeout_ms
    → pong.type ≡ other
    → let answered =
        on_message turn last_seq pong (fire_heartbeat (record (probe s) { now = t })) in
      let later = record answered { now = s.now + heartbeat_timeout_ms } in
      (answered.client.ws_open ≡ true)
      × (answered.heartbeat_timeout ≡ none)
      × ((fire_timeouts answered.timeouts answered).client.ws_open ≡ true)
      × ((fire_timeouts later.timeouts later).client.ws_open ≡ false)
unfolding probe fire_heartbeat on_message fire_timeouts handle_message dispatch
first_answer turn last_seq t pong s up quiet_before none_pending beats after before unknown =
    ground (arith, up, quiet_before, none_pending, beats, after, before, unknown)

-- An open socket with no timeout pending is probed, the heartbeat comes less than 3000 ms later with
-- no message in between, and then the server answers, once or more, with messages of no other
-- effect: after the answers the socket is open, no timeout is known and none is due at the
-- heartbeat's time, but 3000 ms after the probe the connection is closed.
pub probe_closes :
    {p : Platform} (turn : Connection p → Connection p) (last_seq : Text → ℕ) (t : ℕ)
    (pong : ServerMessage p.Bytes) (pongs : List (ServerMessage p.Bytes)) (s : Connection p)
    → s.client.ws_open ≡ true
    → s.heartbeat_timeout ≡ none
    → s.timeouts ≡ []
    → s.heartbeat_timer ≡ some t
    → s.now ≤ t
    → t < s.now + heartbeat_timeout_ms
    → All (λ m. m.type ≡ other) (pong ∷ pongs)
    → let answered = probed_and_answered turn last_seq t (pong ∷ pongs) s in
      let later = record answered { now = s.now + heartbeat_timeout_ms } in
      (answered.client.ws_open ≡ true)
      × (answered.heartbeat_timeout ≡ none)
      × ((fire_timeouts answered.timeouts answered).client.ws_open ≡ true)
      × ((fire_timeouts later.timeouts later).client.ws_open ≡ false)
unfolding probed_and_answered answers
probe_closes {p} turn last_seq t pong pongs s up quiet_before none_pending beats after before
      (k, ks) =
    let first : Connection p =
      on_message turn last_seq pong (fire_heartbeat (record (probe s) { now = t })) in
    let same =
      answers_settled turn last_seq pongs first ks
        (first_answer turn last_seq t pong s up quiet_before none_pending beats after before k).1 in
    rw same (first_answer turn last_seq t pong s up quiet_before none_pending beats after before k)
