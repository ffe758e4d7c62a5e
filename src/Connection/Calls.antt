-- ===== src/Connection/Calls.antt =====
-- frontend/src/lib/sync-client.ts: the calls that send one message, with or without a promise of its
-- confirmation. An optional field that is not given is left out, as in the source.
use lunch_loxs.Prelude.{List, [], ◌∷◌, ◌++◌, Option, none, some, Text, codes}
use lunch_loxs.Platform.{Platform}
use lunch_loxs.World.{create_vault, request}
use lunch_loxs.Connection.{Connection, send_msg}
use lunch_loxs.Connection.Requests.{await_confirmation}
use lunch_loxs.Connection.Messages.{created_key}

abbrev pub optional : Text → Option Text → List (Text × Text)
optional name none = []
optional name (some value) = (name, value) ∷ []

module _ {p : Platform} where
  unfoldable pub change_password :
      Text → Text → Text → Option Text → Option Text → Connection p → Connection p
  unfolding await_confirmation
  change_password old new wrapped wrapped_private wrapped_signing =
      await_confirmation (codes "password_change_ok") (
        request (codes "change_password") (
          (codes "old_auth_hash", old)
          ∷ (codes "new_auth_hash", new)
          ∷ (codes "wrapped_key", wrapped)
          ∷ (optional (codes "wrapped_private_key") wrapped_private
              ++ optional (codes "wrapped_signing_private_key") wrapped_signing)))

  unfoldable pub set_identity : Text → Text → Connection p → Connection p
  unfolding send_msg
  set_identity public wrapped_private = send_msg (
      request (codes "set_identity")
        ((codes "public_key", public) ∷ (codes "wrapped_private_key", wrapped_private) ∷ []))

  unfoldable pub set_key : Text → Connection p → Connection p
  unfolding send_msg
  set_key wrapped = send_msg (request (codes "set_key") ((codes "wrapped_key", wrapped) ∷ []))

  unfoldable pub list_vaults : Connection p → Connection p
  unfolding send_msg
  list_vaults = send_msg (request (codes "list_vaults") [])

  unfoldable pub create_vault_confirmed : Text → Text → Text → Connection p → Connection p
  unfolding await_confirmation
  create_vault_confirmed v key sender =
      await_confirmation (created_key v) (create_vault v key sender)

  unfoldable pub invite_to_vault : Text → Text → Text → Text → Text → Connection p → Connection p
  unfolding send_msg
  invite_to_vault v user key sender role = send_msg (
      request (codes "invite_to_vault") (
        (codes "vault_id", v)
        ∷ (codes "target_user_id", user)
        ∷ (codes "encrypted_vault_key", key)
        ∷ (codes "sender_public_key", sender)
        ∷ (codes "role", role)
        ∷ []))

  unfoldable pub remove_from_vault : Text → Text → Connection p → Connection p
  unfolding await_confirmation
  remove_from_vault v user = await_confirmation (codes "vault_member_removed") (
      request (codes "remove_from_vault")
        ((codes "vault_id", v) ∷ (codes "target_user_id", user) ∷ []))

  unfoldable pub list_vault_members : Text → Connection p → Connection p
  unfolding send_msg
  list_vault_members v =
      send_msg (request (codes "list_vault_members") ((codes "vault_id", v) ∷ []))

  unfoldable pub delete_vault : Text → Connection p → Connection p
  unfolding send_msg
  delete_vault v = send_msg (request (codes "delete_vault") ((codes "vault_id", v) ∷ []))

  unfoldable pub transfer_ownership : Text → Text → Connection p → Connection p
  unfolding await_confirmation
  transfer_ownership v user = await_confirmation (codes "transfer_ok") (
      request (codes "transfer_ownership")
        ((codes "vault_id", v) ∷ (codes "target_user_id", user) ∷ []))

  unfoldable pub change_role : Text → Text → Text → Connection p → Connection p
  unfolding await_confirmation
  change_role v user role = await_confirmation (codes "role_change_ok") (
      request (codes "change_role")
        ((codes "vault_id", v) ∷ (codes "target_user_id", user) ∷ (codes "new_role", role) ∷ []))

  unfoldable pub set_signing_identity : Text → Text → Connection p → Connection p
  unfolding send_msg
  set_signing_identity public wrapped_private = send_msg (
      request (codes "set_signing_identity") (
        (codes "signing_public_key", public)
        ∷ (codes "wrapped_signing_private_key", wrapped_private)
        ∷ []))

  unfoldable pub purge_all : Connection p → Connection p
  unfolding send_msg
  purge_all = send_msg (request (codes "purge") [])
