-- ===== src/Storage/Rekey.antt =====
-- frontend/src/lib/automerge-store.ts: the local cache, and changing the key of everything stored.
-- The cache as JSON text in UTF-8 is a parameter. Each function runs in one piece.
pub mod Rewriting
pub mod Readable
pub mod Cache
pub mod Stopping
use lunch_loxs.Prelude.{
  ℕ, suc, Bool, true, false, List, [], ◌∷◌, Option, none, some, Text, codes, starts_with, keep_if,
  ◌≡◌, All, is_some,
}
use lunch_loxs.Prelude.Maps
use lunch_loxs.Platform.{Platform}
use lunch_loxs.Storage.{Database, Value, bytes, get_from_db, put_to_db, delete_to_db}

pub record VaultCacheEntry : Type 0 where
  pub vault_id : Text
  pub name : Text
  pub role : Text
  pub wrapped_vault_key : Text

pub record KeyPair : Type 0 where
  pub public_key : Text
  pub wrapped_private_key : Text

pub record LocalCache : Type 0 where
  pub vaults : List VaultCacheEntry
  pub identity : KeyPair
  pub signing : KeyPair

-- JSON and UTF-8 (`decode`: `none` where one of them throws).
pub record Codec (p : Platform) : Type 0 where
  pub encode : LocalCache → p.Bytes
  pub decode : p.Bytes → Option LocalCache

abbrev pub local_cache_key : Text
local_cache_key = codes "localCache"

abbrev pub doc_prefix : Text
doc_prefix = codes "doc:"

module _ (p : Platform) where
  -- The stored records, and the source of initialisation vectors.
  pub record Records : Type 0 where
    pub db : Database p.Bytes
    pub next_iv : ℕ

  -- How a function that may throw ends.
  pub record Outcome : Type 0 where
    pub is_done : Bool
    pub records : Records

module _ (p : Platform) where
  -- `putToDB(db, key, await encrypt(plaintext, k))`
  unfoldable pub put_encrypted : Text → p.CryptoKey → p.Bytes → Records p → Records p
  unfolding put_to_db
  put_encrypted key k plaintext s = record {
    db = put_to_db s.db key (bytes (p.encrypt s.next_iv k plaintext));
    next_iv = suc s.next_iv;
  }

  -- `decrypt(value, k)` on what was stored; only bytes can be decrypted.
  unfoldable pub decrypt_value : p.CryptoKey → Value p.Bytes → Option p.Bytes
  decrypt_value k (bytes b) = p.decrypt k b
  decrypt_value k _ = none

  -- What the record at a key reads as.
  unfoldable pub read_record : p.CryptoKey → Text → Database p.Bytes → Option p.Bytes
  unfolding get_from_db decrypt_value
  read_record k key db = elim (get_from_db db key) [ none ↦ none | some v ↦ decrypt_value k v ]

  -- The records at the keys can be read.
  abbrev pub AllReadable : p.CryptoKey → List Text → Database p.Bytes → Type 0
  AllReadable k keys db = All (λ key. is_some (read_record k key db) ≡ true) keys

  unfoldable pub save_local_cache : Codec p → p.CryptoKey → LocalCache → Records p → Records p
  unfolding put_encrypted
  save_local_cache codec master_key cache s =
      put_encrypted local_cache_key master_key (codec.encode cache) s

  unfoldable pub load_local_cache : Codec p → p.CryptoKey → Database p.Bytes → Option LocalCache
  unfolding read_record
  load_local_cache codec master_key db = elim (read_record master_key local_cache_key db) [
    | none ↦ none
    | some decrypted ↦ codec.decode decrypted
  ]

  unfoldable pub clear_local_cache : Database p.Bytes → Database p.Bytes
  unfolding delete_to_db
  clear_local_cache db = delete_to_db db local_cache_key

  -- The loop over the keys of documents; it throws at a record that cannot be decrypted.
  unfoldable pub re_encrypt_docs : p.CryptoKey → p.CryptoKey → List Text → Records p → Outcome p
  unfolding get_from_db decrypt_value put_encrypted
  re_encrypt_docs old_key new_key [] s = record { is_done = true; records = s }
  re_encrypt_docs old_key new_key (key ∷ keys) s = elim (get_from_db s.db key) [
    | none ↦ re_encrypt_docs old_key new_key keys s
    | some v ↦ elim (decrypt_value old_key v) [
      | none ↦ record { is_done = false; records = s }
      | some plaintext ↦
          re_encrypt_docs old_key new_key keys (put_encrypted key new_key plaintext s)
    ]
  ]

  -- An error in this part is caught.
  unfoldable pub re_encrypt_cache : p.CryptoKey → p.CryptoKey → Records p → Records p
  unfolding read_record put_encrypted
  re_encrypt_cache old_key new_key s = elim (read_record old_key local_cache_key s.db) [
    | none ↦ s
    | some plaintext ↦ put_encrypted local_cache_key new_key plaintext s
  ]

  unfoldable pub doc_keys : Database p.Bytes → List Text
  doc_keys db = keep_if (λ k. starts_with k doc_prefix) (Maps.keys db)

  unfoldable pub re_encrypt_all_docs : p.CryptoKey → p.CryptoKey → Records p → Outcome p
  unfolding re_encrypt_docs re_encrypt_cache doc_keys
  re_encrypt_all_docs old_key new_key s =
      let o = re_encrypt_docs old_key new_key (doc_keys s.db) s in
      elim o.is_done [
        | true ↦ record { is_done = true; records = re_encrypt_cache old_key new_key o.records }
        | false ↦ o
      ]
