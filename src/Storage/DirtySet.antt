-- ===== src/Storage/DirtySet.antt =====
-- frontend/src/lib/automerge-store.ts and blob-client.ts: the dirty flags in the database as a set
-- of documents.
use lunch_loxs.Prelude.{
  ℕ, ◌≡◌, refl, sym, ap, ◌∙◌, Bool, true, not, ◌&&◌, ◌||◌, List, [], ◌∷◌, ◌++◌, arith, Text,
  text_eq, is_some,
}
use lunch_loxs.Prelude.Maps
use lunch_loxs.Prelude.Maps.{get-put, get-remove}
use lunch_loxs.Prelude.Sets.{has}
use lunch_loxs.Storage.{
  Database, PendingVault, vault, bytes, flag, number, texts, blob_info, dirty_key, doc_key,
  push_heads_key, seq_key, pending_key, put_to_db, delete_to_db, clear_dirty_flag, set_seq_flag,
  get_all_dirty_doc_ids, set_pending_vault, clear_pending_vault,
}
use lunch_loxs.Storage.Rekey.{local_cache_key}
use lunch_loxs.Blobs.Packing
use lunch_loxs.Blobs.Packing.{blob_prefix, meta_prefix}
use lunch_loxs.Storage.Flags.{has-get_all_dirty_doc_ids, get-clear_dirty_flag}

-- What the program writes to the database, by the function that does it.
pub data Write (Bytes : Type 0) : Type 0 where
  write_doc : Text → Bytes → Write Bytes
  write_dirty : Text → Write Bytes
  clear_dirty : Text → Write Bytes
  write_seq : Text → ℕ → Write Bytes
  write_push_heads : Text → List Text → Write Bytes
  write_pending_vault : PendingVault → Write Bytes
  clear_pending : Text → Write Bytes
  clear_push_heads : Text → Write Bytes
  write_local_cache : Bytes → Write Bytes
  drop_local_cache : Write Bytes
  -- an attachment of a vault, by its key: its bytes, what it is, and that it is to be uploaded
  write_blob : Text → Bytes → Write Bytes
  write_blob_info : Text → Text → Text → ℕ → Write Bytes
  write_blob_dirty clear_blob_dirty : Text → Write Bytes

module _ {Bytes : Type 0} where
  unfoldable pub apply_write : Write Bytes → Database Bytes → Database Bytes
  unfolding put_to_db delete_to_db clear_dirty_flag set_seq_flag set_pending_vault
      clear_pending_vault
  apply_write (write_doc d b) db = put_to_db db (doc_key d) (bytes b)
  apply_write (write_dirty d) db = put_to_db db (dirty_key d) (flag true)
  apply_write (clear_dirty d) db = clear_dirty_flag db d
  apply_write (write_seq d n) db = set_seq_flag db d n
  apply_write (write_push_heads d heads) db = put_to_db db (push_heads_key d) (texts heads)
  apply_write (write_pending_vault pv) db = set_pending_vault db pv
  apply_write (clear_pending v) db = clear_pending_vault db v
  apply_write (clear_push_heads d) db = delete_to_db db (push_heads_key d)
  apply_write (write_local_cache b) db = put_to_db db local_cache_key (bytes b)
  apply_write drop_local_cache db = delete_to_db db local_cache_key
  apply_write (write_blob k b) db = put_to_db db (blob_prefix ++ k) (bytes b)
  apply_write (write_blob_info k mime name size) db =
      put_to_db db (meta_prefix ++ k) (blob_info mime name size)
  apply_write (write_blob_dirty k) db = put_to_db db (Packing.dirty_prefix ++ k) (flag true)
  apply_write (clear_blob_dirty k) db = delete_to_db db (Packing.dirty_prefix ++ k)

  unfoldable pub apply_writes : List (Write Bytes) → Database Bytes → Database Bytes
  unfolding apply_write
  apply_writes [] db = db
  apply_writes (w ∷ ws) db = apply_writes ws (apply_write w db)

  -- What the set of dirty documents is after a write: only the two operations on flags matter.
  unfoldable pub set_after : Write Bytes → (Text → Bool) → Text → Bool
  set_after (write_dirty d) dirty e = text_eq d e || dirty e
  set_after (clear_dirty d) dirty e = not (text_eq d e) && dirty e
  set_after _ dirty e = dirty e

  unfoldable pub set_after_all : List (Write Bytes) → (Text → Bool) → Text → Bool
  unfolding set_after
  set_after_all [] dirty = dirty
  set_after_all (w ∷ ws) dirty = set_after_all ws (set_after w dirty)

  -- The set that a database stands for.
  abbrev pub dirty_docs : Database Bytes → Text → Bool
  dirty_docs db d = has d (get_all_dirty_doc_ids db)

  flag_of : Database Bytes → Text → Bool
  flag_of db d = is_some (Maps.get (dirty_key d) db)

  flag_of-write :
      (w : Write Bytes) (db : Database Bytes) (e : Text)
      → flag_of (apply_write w db) e ≡ set_after w (flag_of db) e
  unfolding flag_of apply_write set_after put_to_db set_seq_flag set_pending_vault
      clear_pending_vault delete_to_db text_eq
  flag_of-write (write_doc d b) db e =
      ground (arith, get-put (doc_key d) (dirty_key e) (bytes b) db)
  flag_of-write (write_dirty d) db e =
      ground (arith, get-put (dirty_key d) (dirty_key e) (flag true) db)
  flag_of-write (clear_dirty d) db e = ground (arith, get-clear_dirty_flag db d (dirty_key e))
  flag_of-write (write_seq d n) db e =
      ground (arith, get-put (seq_key d) (dirty_key e) (number n) db)
  flag_of-write (write_push_heads d heads) db e =
      ground (arith, get-put (push_heads_key d) (dirty_key e) (texts heads) db)
  flag_of-write (write_pending_vault pv) db e =
      ground (arith, get-put (pending_key pv.vault_id) (dirty_key e) (vault pv) db)
  flag_of-write (clear_pending v) db e = ground (arith, get-remove (pending_key v) (dirty_key e) db)
  flag_of-write (clear_push_heads d) db e =
      ground (arith, get-remove (push_heads_key d) (dirty_key e) db)
  flag_of-write (write_local_cache b) db e =
      ground (arith, get-put local_cache_key (dirty_key e) (bytes b) db)
  flag_of-write drop_local_cache db e = ground (arith, get-remove local_cache_key (dirty_key e) db)
  flag_of-write (write_blob k b) db e =
      ground (arith, get-put (blob_prefix ++ k) (dirty_key e) (bytes b) db)
  flag_of-write (write_blob_info k mime name size) db e =
      ground (arith, get-put (meta_prefix ++ k) (dirty_key e) (blob_info mime name size) db)
  flag_of-write (write_blob_dirty k) db e =
      ground (arith, get-put (Packing.dirty_prefix ++ k) (dirty_key e) (flag true) db)
  flag_of-write (clear_blob_dirty k) db e =
      ground (arith, get-remove (Packing.dirty_prefix ++ k) (dirty_key e) db)

  flag_of-writes :
      (ws : List (Write Bytes)) (db : Database Bytes) (d : Text)
      → flag_of (apply_writes ws db) d ≡ set_after_all ws (flag_of db) d
  unfolding apply_writes set_after_all
  flag_of-writes [] db d = refl
  flag_of-writes (w ∷ ws) db d =
      flag_of-writes ws (apply_write w db) d
      ∙ ap (λ s. set_after_all ws s d) (λ i e. flag_of-write w db e i)

  -- The database implements the set of dirty documents: after any sequence of the writes of
  -- automerge-store.ts and blob-client.ts,
  -- the documents that the scan for dirty flags finds are those that the set holds when only the
  -- marks and the clearings of the sequence are applied to it.
  pub dirty_docs-apply_writes :
      (ws : List (Write Bytes)) (db : Database Bytes) (d : Text)
      → dirty_docs (apply_writes ws db) d ≡ set_after_all ws (dirty_docs db) d
  unfolding flag_of
  dirty_docs-apply_writes ws db d =
      has-get_all_dirty_doc_ids (apply_writes ws db) d
      ∙ flag_of-writes ws db d
      ∙ ap (λ s. set_after_all ws s d) (λ i e. sym (has-get_all_dirty_doc_ids db e) i)
