-- ===== src/Tests/Connect.antt =====
-- Runs of a connection, and instances of the theorems about it.
use lunch_loxs.Prelude.{
  ℕ, ◌+◌, ◌≡◌, refl, true, false, List, [], ◌∷◌, none, some, codes, text_eq, arith,
}
use lunch_loxs.Prelude.Maps
use lunch_loxs.World.{request, subscribe}
use lunch_loxs.Connection.{Connection, request_timeout_ms}
use lunch_loxs.Connection.Requests.{is_settled, await_confirmation, fire_requests}
use lunch_loxs.Connection.Heartbeat.{fire_timeouts}
use lunch_loxs.Connection.Messages.{
  MessageType, ServerMessage, connected_msg, vault_member_removed, other, handle_message,
  on_message,
}
use lunch_loxs.Connection.Actions.{Action, tick, receives, awaits, run_actions}
use lunch_loxs.Connection.Answers.{run_actions-settles}
use lunch_loxs.Connection.Messages.{dispatch, vault_created, ownership_transferred, role_changed}
use lunch_loxs.Connection.Calls.{
  create_vault_confirmed, remove_from_vault, transfer_ownership, change_role,
}
use lunch_loxs.Connection.Confirmed.{answers_resolve}
use lunch_loxs.Connection.Probes.{probed_and_answered, probe_closes}
use lunch_loxs.Connection.Resubscribing.{connected_resubscribes}
use lunch_loxs.Tests.{toy, toy_client, recipe}

abbrev up : Connection toy
up = record {
  client = toy_client;
  is_signup = true;
  reconnect_delay = 1000;
  reconnect_timer = none;
  intentional_close = false;
  subscriptions = codes "catalog" ∷ recipe ∷ [];
  last_seqs = (recipe, 4) ∷ [];
  heartbeat_timer = some 27000;
  heartbeat_timeout = none;
  timeouts = [];
  listening = true;
  confirm_resolvers = [];
  lookup_resolvers = [];
  request_timers = [];
  settled = [];
  next_promise = 0;
  calls = [];
  now = 25000;
  next_timeout = 0;
}

abbrev message_of : MessageType → ServerMessage (List ℕ)
message_of t = record {
  type = t;
  doc_id = none;
  seq = none;
  payload = none;
  wrapped_key = none;
  from_device = none;
  latest_seq = none;
  message = none;
  retry_after_ms = none;
  presence_data = none;
  sender_user_id = none;
  vault_id = none;
  encrypted_vault_key = none;
  role = none;
  new_role = none;
  target_user_id = none;
}

-- Two members are removed at once; the server confirms one removal.
abbrev removals : List (Action toy)
removals =
    awaits (codes "vault_member_removed") (request (codes "remove_from_vault") [])
    ∷ tick 10
    ∷ awaits (codes "vault_member_removed") (request (codes "remove_from_vault") [])
    ∷ receives (message_of vault_member_removed)
    ∷ []

two_promises : (run_actions (λ d. 0) (λ s. []) 1 removals up).next_promise ≡ 2
unfolding run_actions on_message await_confirmation fire_requests Maps.get Maps.set text_eq
two_promises = refl

run_actions-settles_example :
    let s' = run_actions (λ d. 0) (λ s. []) 1 removals up in
    let later = record s' { now = s'.now + request_timeout_ms } in
    is_settled 0 (fire_requests later.request_timers later).settled ≡ true
run_actions-settles_example =
    run_actions-settles (λ d. 0) (λ s. []) 1 0 removals up refl refl (omega (arith, two_promises))

probe_closes_example :
    let answered =
      probed_and_answered (λ s. s) (λ d. 0) 27000 (message_of other ∷ message_of other ∷ []) up in
    let later = record answered { now = 28000 } in
    (answered.client.ws_open ≡ true)
    × (answered.heartbeat_timeout ≡ none)
    × ((fire_timeouts answered.timeouts answered).client.ws_open ≡ true)
    × ((fire_timeouts later.timeouts later).client.ws_open ≡ false)
probe_closes_example =
    probe_closes (λ s. s) (λ d. 0) 27000 (message_of other) (message_of other ∷ []) up refl refl
      refl refl (omega arith) (omega arith) (refl, (refl, tt))

connected_resubscribes_example :
    let s' = handle_message (λ s. s) (λ d. 0) (message_of connected_msg) up in
    (s'.client.outbox ≡ subscribe (codes "catalog") 0 ∷ subscribe recipe 4 ∷ [])
    × (s'.is_signup ≡ false)
unfolding Maps.get text_eq
connected_resubscribes_example =
    connected_resubscribes (λ d. 0) (message_of connected_msg) up refl refl

abbrev about_v1 : ServerMessage (List ℕ)
about_v1 = record (message_of vault_created) { vault_id = some (codes "v1") }

answers_resolve_example :
    let v = codes "v1" in
    let ann = codes "ann" in
    let viewer = codes "viewer" in
    let say : MessageType → Connection toy → Connection toy =
      λ t. dispatch (λ s. s) (λ d. 0) t about_v1 in
    ((say vault_created (create_vault_confirmed v viewer ann up)).settled ≡ (0, true) ∷ [])
    × ((say vault_member_removed (remove_from_vault v ann up)).settled ≡ (0, true) ∷ [])
    × ((say ownership_transferred (transfer_ownership v ann up)).settled ≡ (0, true) ∷ [])
    × ((say role_changed (change_role v ann viewer up)).settled ≡ (0, true) ∷ [])
answers_resolve_example =
    answers_resolve (λ s. s) (λ d. 0) (codes "v1") (codes "ann") (codes "viewer") about_v1 up refl
      refl
