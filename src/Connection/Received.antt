-- ===== src/Connection/Received.antt =====
-- frontend/src/lib/sync-client.ts: what the messages of the server do to the promises.
use lunch_loxs.Prelude.{
  ℕ, false, List, [], ◌∷◌, Option, none, some, Text, codes, Option-cases, inl, inr, or_default,
}
use lunch_loxs.Prelude.Maps
use lunch_loxs.Platform.{Platform}
use lunch_loxs.Prelude.Sets
use lunch_loxs.World.{subscribe, case_option}
use lunch_loxs.Client.{resolve_key}
use lunch_loxs.Connection.{
  Connection, send_msg, call, on_status_change, on_remote_change, on_connected, on_vault_list,
  connected,
}
use lunch_loxs.Connection.Heartbeat.{clear_heartbeat_timeout}
use lunch_loxs.Connection.Messages.{
  connected_msg, sync, caught_up, ack, push_error, purged, presence_msg, password_changed,
  password_change_ok, vault_list, vault_created, vault_invited, vault_removed, vault_deleted,
  vault_members, user_lookup, ownership_transferred, ownership_received, role_changed,
  vault_key_rotated, vault_member_removed, error, other, dispatch, MessageType, ServerMessage,
  resubscribe, handle_sync, handle_message, on_message, subscribe_doc, created_key,
}
use lunch_loxs.Connection.Pending.{IsAnswered, confirm-IsAnswered, found_user-IsAnswered}
use lunch_loxs.Connection.Untouched.{
  like-IsAnswered, clear_heartbeat_timeout-IsLike, handle_error-IsAnswered,
}

module _ {p : Platform} (turn : Connection p → Connection p) (last_seq : Text → ℕ)
    (keep : (s : Connection p) → IsAnswered s → IsAnswered (turn s)) where
  resubscribe-IsAnswered :
      (ds : List Text) (s : Connection p)
      → IsAnswered s
      → IsAnswered (resubscribe turn last_seq ds s)
  unfolding resubscribe
  resubscribe-IsAnswered [] s h = h
  resubscribe-IsAnswered (d ∷ ds) s h = elim (Option-cases (Maps.get d s.last_seqs)) [
    | inl e ↦
        rw (e, resubscribe)
          (resubscribe-IsAnswered ds (send_msg (subscribe d (last_seq d)) (turn s)) (keep s h))
    | inr (n, e) ↦ rw (e, resubscribe) (resubscribe-IsAnswered ds (send_msg (subscribe d n) s) h)
  ]

  pub subscribe_doc-IsAnswered :
      (d : Text) (seq : Option ℕ) (s : Connection p)
      → IsAnswered s
      → IsAnswered (subscribe_doc turn last_seq d seq s)
  unfolding subscribe_doc
  subscribe_doc-IsAnswered d none s h =
      keep (record s { subscriptions = Sets.add d s.subscriptions }) h
  subscribe_doc-IsAnswered d (some n) s h = h

  case_option-IsAnswered :
      {A : Type 0} (o : Option A) (s : Connection p) (f : A → Connection p)
      → IsAnswered s
      → ((a : A) → IsAnswered (f a))
      → IsAnswered (case_option o s f)
  case_option-IsAnswered none s f h k = h
  case_option-IsAnswered (some a) s f h k = k a

  handle_sync-IsAnswered :
      (msg : ServerMessage p.Bytes) (d : Text) (seq : ℕ) (payload : p.Bytes) (s : Connection p)
      → IsAnswered s
      → IsAnswered (handle_sync turn last_seq msg d seq payload s)
  unfolding handle_sync
  handle_sync-IsAnswered msg d seq payload s h =
      case_option-IsAnswered (resolve_key s.client d) s _ h λ key.
        let decrypted = turn s in
        let applied = case_option (p.decrypt key payload) decrypted λ plaintext.
          turn (call (on_remote_change d plaintext seq msg.sender_user_id) decrypted) in
        let done =
          case_option-IsAnswered (p.decrypt key payload) decrypted _ (keep s h) λ plaintext.
            keep (call (on_remote_change d plaintext seq msg.sender_user_id) decrypted)
              (keep s h) in
        case_option-IsAnswered msg.presence_data applied _ done
          λ cursor. case_option-IsAnswered msg.from_device applied _ done λ device. done

  dispatch-IsAnswered :
      (t : MessageType) (msg : ServerMessage p.Bytes) (s : Connection p)
      → IsAnswered s
      → IsAnswered (dispatch turn last_seq t msg s)
  unfolding dispatch
  dispatch-IsAnswered connected_msg msg s h =
      let told =
        call (on_connected msg.wrapped_key)
          (call (on_status_change connected) (record s { is_signup = false })) in
      resubscribe-IsAnswered (turn told).subscriptions (turn told) (keep told h)
  dispatch-IsAnswered sync msg s h = case_option-IsAnswered msg.payload s _ h λ payload.
      case_option-IsAnswered msg.seq s _ h λ seq.
        case_option-IsAnswered msg.doc_id s _ h λ d. handle_sync-IsAnswered msg d seq payload s h
  dispatch-IsAnswered caught_up msg s h = case_option-IsAnswered msg.doc_id s _ h λ d. h
  dispatch-IsAnswered ack msg s h =
      case_option-IsAnswered msg.doc_id s _ h λ d. case_option-IsAnswered msg.seq s _ h λ seq. h
  dispatch-IsAnswered push_error msg s h = case_option-IsAnswered msg.doc_id s _ h λ d. h
  dispatch-IsAnswered purged msg s h = h
  dispatch-IsAnswered presence_msg msg s h =
      case_option-IsAnswered msg.from_device s _ h
        λ device. case_option-IsAnswered msg.presence_data s _ h λ cursor. h
  dispatch-IsAnswered password_changed msg s h = h
  dispatch-IsAnswered password_change_ok msg s h =
      confirm-IsAnswered (codes "password_change_ok") s h
  dispatch-IsAnswered vault_list msg s h = keep (call on_vault_list s) h
  dispatch-IsAnswered vault_created msg s h =
      confirm-IsAnswered (created_key (or_default msg.vault_id [])) s h
  dispatch-IsAnswered vault_invited msg s h = h
  dispatch-IsAnswered vault_removed msg s h = h
  dispatch-IsAnswered vault_deleted msg s h = h
  dispatch-IsAnswered vault_members msg s h = h
  dispatch-IsAnswered user_lookup msg s h =
      found_user-IsAnswered (or_default msg.target_user_id []) s h
  dispatch-IsAnswered ownership_transferred msg s h = confirm-IsAnswered (codes "transfer_ok") s h
  dispatch-IsAnswered ownership_received msg s h = h
  dispatch-IsAnswered role_changed msg s h = confirm-IsAnswered (codes "role_change_ok") s h
  dispatch-IsAnswered vault_key_rotated msg s h = h
  dispatch-IsAnswered vault_member_removed msg s h =
      confirm-IsAnswered (codes "vault_member_removed") s h
  dispatch-IsAnswered error msg s h = handle_error-IsAnswered msg s h
  dispatch-IsAnswered other msg s h = h

  pub on_message-IsAnswered :
      (msg : ServerMessage p.Bytes) (s : Connection p)
      → IsAnswered s
      → IsAnswered (on_message turn last_seq msg s)
  unfolding on_message handle_message
  on_message-IsAnswered msg s h =
      dispatch-IsAnswered msg.type msg (clear_heartbeat_timeout s)
        (like-IsAnswered s (clear_heartbeat_timeout s) (clear_heartbeat_timeout-IsLike s) h)
