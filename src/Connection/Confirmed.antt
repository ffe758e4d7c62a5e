-- ===== src/Connection/Confirmed.antt =====
-- frontend/src/lib/sync-client.ts: the answer that resolves the promise of each call.
use lunch_loxs.Prelude.{ℕ, ◌≡◌, true, ◌∷◌, some, arith, Text, codes, text_eq_refl}
use lunch_loxs.Prelude.Maps.{get-set}
use lunch_loxs.Platform.{Platform}
use lunch_loxs.World.{Outgoing}
use lunch_loxs.Connection.{Connection}
use lunch_loxs.Connection.Requests.{await_confirmation, confirm}
use lunch_loxs.Connection.Messages.{
  ServerMessage, created_key, dispatch, vault_created, vault_member_removed, ownership_transferred,
  role_changed,
}
use lunch_loxs.Connection.Calls.{
  create_vault_confirmed, remove_from_vault, transfer_ownership, change_role,
}

module _ {p : Platform} where
  confirm-await_confirmation :
      (key : Text) (m : Outgoing p.Bytes) (s : Connection p)
      → s.client.ws_open ≡ true
      → (confirm key (await_confirmation key m s)).settled ≡ (s.next_promise, true) ∷ s.settled
  unfolding confirm await_confirmation
  confirm-await_confirmation key m s up =
      ground (arith, up, get-set key key s.next_promise s.confirm_resolvers, text_eq_refl key)

-- On an open socket, the promise of a call is resolved by the answer to it, if that is the next
-- message and names the vault: that of the creation of a vault by "vault_created", that of a removal by "vault_member_removed", that of a
-- transfer by "ownership_transferred", and that of a change of role by "role_changed".
pub answers_resolve :
    {p : Platform} (turn : Connection p → Connection p) (last_seq : Text → ℕ) (v user text : Text)
    (msg : ServerMessage p.Bytes) (s : Connection p)
    → s.client.ws_open ≡ true
    → msg.vault_id ≡ some v
    → let resolved = (s.next_promise, true) ∷ s.settled in
      ((dispatch turn last_seq vault_created msg (create_vault_confirmed v text user s)).settled
        ≡ resolved)
      × ((dispatch turn last_seq vault_member_removed msg (remove_from_vault v user s)).settled
          ≡ resolved)
      × ((dispatch turn last_seq ownership_transferred msg (transfer_ownership v user s)).settled
          ≡ resolved)
      × ((dispatch turn last_seq role_changed msg (change_role v user text s)).settled ≡ resolved)
unfolding dispatch create_vault_confirmed remove_from_vault transfer_ownership change_role
answers_resolve turn last_seq v user text msg s up vault = (
  rw vault (confirm-await_confirmation (created_key v) _ s up),
  confirm-await_confirmation (codes "vault_member_removed") _ s up,
  confirm-await_confirmation (codes "transfer_ok") _ s up,
  confirm-await_confirmation (codes "role_change_ok") _ s up,
)
