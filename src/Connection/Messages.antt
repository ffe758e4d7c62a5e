-- ===== src/Connection/Messages.antt =====
-- frontend/src/lib/sync-client.ts: subscriptions, and the messages of the server. A message is what
-- JSON.parse made of it, with an absent or empty field as `none`; its payload is decoded from
-- base64. `last_seq` is `getLastSeq`, and `turn` what else happens at an `await`. A callback that
-- throws is not modelled, and the lists of vaults and of members are left out.
use lunch_loxs.Prelude.{
  ℕ, Bool, true, false, ◌||◌, List, [], ◌∷◌, ◌++◌, Option, none, some, Text, codes, text_eq,
  if◌then◌else◌, or_default,
}
use lunch_loxs.Prelude.Sets
use lunch_loxs.Prelude.Maps
use lunch_loxs.Platform.{Platform}
use lunch_loxs.World.{subscribe, unsubscribe, presence, case_option}
use lunch_loxs.Client.{resolve_key}
use lunch_loxs.Connection.{
  Connection, connected, disconnected, on_status_change, on_connected, on_remote_change,
  on_caught_up, on_ack, on_push_error, on_presence, on_rate_limited, on_auth_error, on_purged,
  on_password_changed, on_vault_list, on_vault_created, on_vault_removed, on_vault_deleted,
  on_vault_members, on_vault_key_rotated, on_vault_invited, on_role_changed,
  on_ownership_transferred, on_ownership_received, call, send_msg, close_socket,
}
use lunch_loxs.Connection.Heartbeat.{clear_heartbeat_timeout}
use lunch_loxs.Connection.Requests.{confirm, found_user, reject_confirms, reject_lookups}

pub data MessageType : Type 0 where
  connected_msg sync caught_up ack push_error purged presence_msg password_changed : MessageType
  password_change_ok vault_list vault_created vault_invited vault_removed : MessageType
  vault_deleted vault_members user_lookup ownership_transferred ownership_received : MessageType
  role_changed vault_key_rotated vault_member_removed error other : MessageType

pub record ServerMessage (Bytes : Type 0) : Type 0 where
  pub type : MessageType
  pub doc_id : Option Text
  pub seq : Option ℕ
  pub payload : Option Bytes
  pub wrapped_key : Option Text
  pub from_device : Option Text
  pub latest_seq : Option ℕ
  pub message : Option Text
  pub retry_after_ms : Option ℕ
  pub presence_data : Option Text
  pub sender_user_id : Option Text
  pub vault_id : Option Text
  pub encrypted_vault_key : Option Text
  pub role : Option Text
  pub new_role : Option Text
  pub target_user_id : Option Text

-- `confirmType` of the creation of a vault
abbrev pub created_key : Text → Text
created_key v = codes "vault_created:" ++ v

unfoldable pub is_auth_error : Text → Bool
is_auth_error m =
    text_eq m (codes "auth_failed")
    || text_eq m (codes "user_not_found")
    || text_eq m (codes "user_already_exists")

module _ {p : Platform} where
  -- `subscribe(docId, lastSeq)` once the number is known
  unfoldable pub subscribe_from : Text → ℕ → Connection p → Connection p
  unfolding send_msg
  subscribe_from d seq s =
      send_msg (subscribe d seq) (record s { last_seqs = Maps.set d seq s.last_seqs })

  unfoldable pub unsubscribe_doc : Text → Connection p → Connection p
  unfolding send_msg
  unsubscribe_doc d s = send_msg (unsubscribe d) (record s {
    subscriptions = Sets.remove d s.subscriptions;
    last_seqs = Maps.remove d s.last_seqs;
  })

  unfoldable pub send_presence : Text → Text → Connection p → Connection p
  unfolding send_msg
  send_presence d cursor = send_msg (presence d cursor)

  -- `case "error"`
  unfoldable pub handle_error : ServerMessage p.Bytes → Connection p → Connection p
  unfolding is_auth_error close_socket reject_confirms reject_lookups
  handle_error msg s =
      let m = or_default msg.message [] in
      if is_auth_error m
      then call (on_auth_error m) (
          call (on_status_change disconnected)
            (close_socket (record s { intentional_close = true })))
      else if text_eq m (codes "rate_limited")
      then call (on_rate_limited msg.retry_after_ms) s
      else (let refused = reject_confirms s.confirm_resolvers s in
          reject_lookups refused.lookup_resolvers refused)

module _ {p : Platform} (turn : Connection p → Connection p) (last_seq : Text → ℕ) where
  unfoldable pub subscribe_doc : Text → Option ℕ → Connection p → Connection p
  unfolding subscribe_from
  subscribe_doc d seq s =
      let added = record s { subscriptions = Sets.add d s.subscriptions } in
      case_option seq (subscribe_from d (last_seq d) (turn added)) λ n. subscribe_from d n added

  -- `resubscribeAll()`; the loop reads the subscriptions of the start. A number that is not in
  -- memory is asked for.
  unfoldable pub resubscribe : List Text → Connection p → Connection p
  unfolding send_msg
  resubscribe [] s = s
  resubscribe (d ∷ ds) s = elim (Maps.get d s.last_seqs) [
    | some seq ↦ resubscribe ds (send_msg (subscribe d seq) s)
    | none ↦ resubscribe ds (send_msg (subscribe d (last_seq d)) (turn s))
  ]

  unfoldable pub resubscribe_all : Connection p → Connection p
  unfolding resubscribe
  resubscribe_all s = resubscribe s.subscriptions s

  -- `case "sync"`, with its three fields present
  unfoldable pub handle_sync :
      ServerMessage p.Bytes → Text → ℕ → p.Bytes → Connection p → Connection p
  unfolding resolve_key
  handle_sync msg d seq payload s = case_option (resolve_key s.client d) s λ key.
      let decrypted = turn s in
      let applied =
        case_option (p.decrypt key payload) decrypted λ plaintext.
          turn (call (on_remote_change d plaintext seq msg.sender_user_id) decrypted) in
      case_option msg.presence_data applied λ cursor.
        case_option msg.from_device applied
          λ device. call (on_presence d device cursor msg.sender_user_id) applied

  -- The cases of `handleMessage`.
  unfoldable pub dispatch : MessageType → ServerMessage p.Bytes → Connection p → Connection p
  unfolding resubscribe_all handle_sync handle_error confirm found_user
  dispatch connected_msg msg s = resubscribe_all (
      turn (
        call (on_connected msg.wrapped_key)
          (call (on_status_change connected) (record s { is_signup = false }))))
  dispatch sync msg s = case_option msg.payload s λ payload.
      case_option msg.seq s λ seq. case_option msg.doc_id s λ d. handle_sync msg d seq payload s
  dispatch caught_up msg s = case_option msg.doc_id s λ d.
      let seq = or_default msg.latest_seq 0 in
      call (on_caught_up d seq) (record s { last_seqs = Maps.set d seq s.last_seqs })
  dispatch ack msg s =
      case_option msg.doc_id s λ d. case_option msg.seq s λ seq. call (on_ack d seq) s
  dispatch push_error msg s =
      case_option msg.doc_id s
        λ d. call (on_push_error d (or_default msg.message (codes "unknown"))) s
  dispatch purged msg s = call on_purged s
  dispatch presence_msg msg s = case_option msg.from_device s λ device.
      case_option msg.presence_data s
        λ cursor. call (on_presence (or_default msg.doc_id []) device cursor msg.sender_user_id) s
  dispatch password_changed msg s = call on_password_changed s
  dispatch password_change_ok msg s = confirm (codes "password_change_ok") s
  dispatch vault_list msg s = turn (call on_vault_list s)
  dispatch vault_created msg s =
      let v = or_default msg.vault_id [] in call (on_vault_created v) (confirm (created_key v) s)
  dispatch vault_invited msg s =
      call
        (on_vault_invited (or_default msg.vault_id []) (or_default msg.encrypted_vault_key [])
          (or_default msg.role (codes "editor")))
        s
  dispatch vault_removed msg s = call (on_vault_removed (or_default msg.vault_id [])) s
  dispatch vault_deleted msg s = call (on_vault_deleted (or_default msg.vault_id [])) s
  dispatch vault_members msg s = call (on_vault_members (or_default msg.vault_id [])) s
  dispatch user_lookup msg s = found_user (or_default msg.target_user_id []) s
  dispatch ownership_transferred msg s =
      call
        (on_ownership_transferred (or_default msg.vault_id []) (or_default msg.target_user_id []))
        (confirm (codes "transfer_ok") s)
  dispatch ownership_received msg s =
      call (on_ownership_received (or_default msg.vault_id []) (or_default msg.target_user_id [])) s
  dispatch role_changed msg s =
      call
        (on_role_changed (or_default msg.vault_id []) (or_default msg.target_user_id [])
          (or_default msg.new_role []))
        (confirm (codes "role_change_ok") s)
  dispatch vault_key_rotated msg s = call (on_vault_key_rotated (or_default msg.vault_id [])) s
  dispatch vault_member_removed msg s = confirm (codes "vault_member_removed") s
  dispatch error msg s = handle_error msg s
  dispatch other msg s = s

  unfoldable pub handle_message : ServerMessage p.Bytes → Connection p → Connection p
  unfolding dispatch
  handle_message msg s = dispatch msg.type msg s

  -- `onmessage`: any message counts as an answer to a ping.
  unfoldable pub on_message : ServerMessage p.Bytes → Connection p → Connection p
  unfolding clear_heartbeat_timeout handle_message
  on_message msg s = handle_message msg (clear_heartbeat_timeout s)
