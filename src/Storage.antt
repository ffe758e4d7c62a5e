-- ===== src/Storage.antt =====
-- frontend/src/lib/automerge-store.ts, the IndexedDB side: one object store `docs`, its keys, and
-- the helper functions that read and write it. A transaction that fails is not modelled.
pub mod Flags
pub mod Rekey
pub mod DirtySet
use lunch_loxs.Prelude.{
  ℕ, Bool, List, [], ◌∷◌, ◌++◌, Option, some, Text, codes, starts_with, drop, keep_if, map,
}
use lunch_loxs.Prelude.Maps

pub record PendingVault : Type 0 where
  pub vault_id : Text
  pub encrypted_vault_key : Text
  pub sender_public_key : Text

-- The values that the program stores.
pub data Value (Bytes : Type 0) : Type 0 where
  bytes : Bytes → Value Bytes
  flag : Bool → Value Bytes
  number : ℕ → Value Bytes
  texts : List Text → Value Bytes
  vault : PendingVault → Value Bytes
  -- the type, name and size of an attachment
  blob_info : Text → Text → ℕ → Value Bytes

abbrev pub Database : Type 0 → Type 0
Database Bytes = List (Text × Value Bytes)

-- The keys, `doc:${docId}` and so on.
abbrev pub doc_key : Text → Text
doc_key d = codes "doc:" ++ d

abbrev pub dirty_prefix : Text
dirty_prefix = codes "dirty:"

abbrev pub dirty_key : Text → Text
dirty_key d = dirty_prefix ++ d

abbrev pub push_heads_key : Text → Text
push_heads_key d = codes "pushHeads:" ++ d

abbrev pub seq_key : Text → Text
seq_key d = codes "seq:" ++ d

abbrev pub pending_prefix : Text
pending_prefix = codes "pendingVault:"

abbrev pub pending_key : Text → Text
pending_key v = pending_prefix ++ v

module _ {Bytes : Type 0} where
  unfoldable pub get_from_db : Database Bytes → Text → Option (Value Bytes)
  get_from_db db k = Maps.get k db

  unfoldable pub put_to_db : Database Bytes → Text → Value Bytes → Database Bytes
  put_to_db db k v = Maps.put k v db

  unfoldable pub delete_to_db : Database Bytes → Text → Database Bytes
  delete_to_db db k = Maps.remove k db

  unfoldable pub clear_dirty_flag : Database Bytes → Text → Database Bytes
  unfolding delete_to_db
  clear_dirty_flag db d = delete_to_db (delete_to_db db (dirty_key d)) (push_heads_key d)

  unfoldable pub set_seq_flag : Database Bytes → Text → ℕ → Database Bytes
  unfolding put_to_db
  set_seq_flag db d seq = put_to_db db (seq_key d) (number seq)

  unfoldable pub get_all_dirty_doc_ids : Database Bytes → List Text
  get_all_dirty_doc_ids db =
      map (λ k. drop 6 k) (keep_if (λ k. starts_with k dirty_prefix) (Maps.keys db))

  unfoldable pub set_pending_vault : Database Bytes → PendingVault → Database Bytes
  unfolding put_to_db
  set_pending_vault db pv = put_to_db db (pending_key pv.vault_id) (vault pv)

  unfoldable pub clear_pending_vault : Database Bytes → Text → Database Bytes
  unfolding delete_to_db
  clear_pending_vault db v = delete_to_db db (pending_key v)

  -- `results.push(r.result)` for each key, in the order of the keys.
  collect_vaults : Database Bytes → List Text → List PendingVault
  collect_vaults db [] = []
  collect_vaults db (k ∷ ks) = elim (get_from_db db k) [
    | some (vault pv) ↦ pv ∷ collect_vaults db ks
    | _ ↦ collect_vaults db ks
  ]

  unfoldable pub get_all_pending_vaults : Database Bytes → List PendingVault
  unfolding collect_vaults get_from_db
  get_all_pending_vaults db =
      collect_vaults db (keep_if (λ k. starts_with k pending_prefix) (Maps.keys db))
