-- ===== src/Tests/Stored.antt =====
-- Concrete runs of the local cache, the change of the key, the dirty set and the attachments.
use lunch_loxs.Prelude.{
  ℕ, ◌≡◌, refl, true, false, List, [], ◌∷◌, ◌++◌, Option, none, some, arith, Text, codes, length,
  take, drop, drop-append, text_eq, text_eq_refl, ◌&&◌, starts_with, if◌then◌else◌, All,
}
use lunch_loxs.Prelude.Maps
use lunch_loxs.Prelude.Sets.{has, IsDistinct}
use lunch_loxs.Storage.{Database, bytes, flag, doc_key, dirty_key, get_from_db}
use lunch_loxs.Storage.DirtySet.{
  Write, write_doc, write_dirty, clear_blob_dirty, write_local_cache, clear_dirty, apply_writes,
  set_after_all, dirty_docs, dirty_docs-apply_writes,
}
use lunch_loxs.Storage.Rekey.{
  Records, Codec, LocalCache, KeyPair, re_encrypt_all_docs, read_record, doc_keys, load_local_cache,
  local_cache_key, AllReadable, decrypt_value,
}
use lunch_loxs.Storage.Rekey.Readable.{re_encrypt_all_docs_readable}
use lunch_loxs.Storage.Rekey.Stopping.{re_encrypt_all_docs_stops}
use lunch_loxs.Blobs.{
  Services, LawfulServices, BlobStore, BlobValue, BlobMeta, store_blob, load_blob_decrypted,
  flush_dirty_blobs, dirty_prefix, blob_key, get_blob,
}
use lunch_loxs.Blobs as Blobs
use lunch_loxs.Blobs.Format.{take-append}
use lunch_loxs.Blobs.Loading.{load-store_blob}
use lunch_loxs.Blobs.Flush.{is_flushed, get-flush_dirty_blobs}
use lunch_loxs.Tests.{toy, toy_lawful}

abbrev d1 : Text
d1 = codes "v1/r1"

abbrev d2 : Text
d2 = codes "v1/r2"

abbrev some_writes : List (Write (List ℕ))
some_writes =
    write_dirty d1
    ∷ write_doc d1 (5 ∷ [])
    ∷ clear_dirty d2
    ∷ clear_blob_dirty d1
    ∷ write_local_cache []
    ∷ []

abbrev one_flag : Database (List ℕ)
one_flag = (dirty_key d2, flag true) ∷ []

dirty_docs-apply_writes_example :
    dirty_docs (apply_writes some_writes one_flag) d1
    ≡ set_after_all some_writes (dirty_docs one_flag) d1
dirty_docs-apply_writes_example = dirty_docs-apply_writes some_writes one_flag d1

abbrev key_pair : KeyPair
key_pair = record { public_key = codes "p"; wrapped_private_key = codes "w" }

abbrev no_vaults : LocalCache
no_vaults = record { vaults = []; identity = key_pair; signing = key_pair }

-- A codec that knows one cache.
abbrev toy_codec : Codec toy
toy_codec = record { encode = λ c. []; decode = λ b. some no_vaults }

-- Two documents, a sequence number's flag and a local cache, all under the key 7.
abbrev stored : Records toy
stored = record {
  db =
      (dirty_key d2, flag true)
      ∷ (doc_key d1, bytes (0 ∷ 7 ∷ 1 ∷ []))
      ∷ (doc_key d2, bytes (1 ∷ 7 ∷ 2 ∷ []))
      ∷ (local_cache_key, bytes (2 ∷ 7 ∷ []))
      ∷ [];
  next_iv = 3;
}

stored-IsDistinct : IsDistinct (Maps.keys stored.db)
unfolding has text_eq
stored-IsDistinct = (refl, (refl, (refl, (refl, tt))))

stored_readable : AllReadable toy 7 (doc_keys toy stored.db) stored.db
unfolding doc_keys read_record starts_with get_from_db Maps.get text_eq
stored_readable = (refl, (refl, tt))

stored_listed : has (doc_key d2) (doc_keys toy stored.db) ≡ true
unfolding doc_keys has starts_with text_eq
stored_listed = refl

stored_unlisted : has (dirty_key d2) (doc_keys toy stored.db) ≡ false
unfolding doc_keys has starts_with text_eq
stored_unlisted = refl

not_local_cache : text_eq local_cache_key (dirty_key d2) ≡ false
unfolding text_eq
not_local_cache = refl

stored_cache : load_local_cache toy toy_codec 7 stored.db ≡ some no_vaults
unfolding load_local_cache read_record get_from_db Maps.get text_eq
stored_cache = refl

re_encrypt_all_docs_readable_example :
    ((re_encrypt_all_docs toy 7 8 stored).is_done ≡ true)
    × (read_record toy 8 (doc_key d2) (re_encrypt_all_docs toy 7 8 stored).records.db
        ≡ read_record toy 7 (doc_key d2) stored.db)
re_encrypt_all_docs_readable_example =
    re_encrypt_all_docs_readable toy toy_lawful 7 8 stored (doc_key d2) stored-IsDistinct
      stored_readable stored_listed

-- The second of three documents is under another key.
abbrev d3 : Text
d3 = codes "v2/r1"

abbrev one_foreign : Records toy
one_foreign = record {
  db =
      (doc_key d1, bytes (0 ∷ 7 ∷ 1 ∷ []))
      ∷ (doc_key d2, bytes (1 ∷ 9 ∷ 2 ∷ []))
      ∷ (doc_key d3, bytes (2 ∷ 7 ∷ 3 ∷ []))
      ∷ [];
  next_iv = 3;
}

one_foreign_keys : doc_keys toy one_foreign.db ≡ (doc_key d1 ∷ []) ++ doc_key d2 ∷ doc_key d3 ∷ []
unfolding doc_keys starts_with
one_foreign_keys = refl

first_readable : AllReadable toy 7 (doc_key d1 ∷ []) one_foreign.db
unfolding read_record get_from_db Maps.get text_eq
first_readable = (refl, tt)

first_alone : IsDistinct (doc_key d1 ∷ [])
unfolding has
first_alone = (refl, tt)

behind_first : All (λ j. has j (doc_key d1 ∷ []) ≡ false) (doc_key d2 ∷ doc_key d3 ∷ [])
unfolding has text_eq
behind_first = (refl, (refl, tt))

foreign_value : get_from_db one_foreign.db (doc_key d2) ≡ some (bytes (1 ∷ 9 ∷ 2 ∷ []))
unfolding get_from_db Maps.get text_eq
foreign_value = refl

foreign_unreadable : decrypt_value toy 7 (bytes (1 ∷ 9 ∷ 2 ∷ [])) ≡ none
unfolding decrypt_value
foreign_unreadable = refl

re_encrypt_all_docs_stops_example :
    ((re_encrypt_all_docs toy 7 8 one_foreign).is_done ≡ false)
    × All
        (λ j.
          read_record toy 8 j (re_encrypt_all_docs toy 7 8 one_foreign).records.db
          ≡ read_record toy 7 j one_foreign.db)
        (doc_key d1 ∷ [])
    × All
        (λ j.
          get_from_db (re_encrypt_all_docs toy 7 8 one_foreign).records.db j
          ≡ get_from_db one_foreign.db j)
        (doc_key d2 ∷ doc_key d3 ∷ [])
re_encrypt_all_docs_stops_example =
    re_encrypt_all_docs_stops toy toy_lawful 7 8 (doc_key d1 ∷ []) (doc_key d2) (doc_key d3 ∷ [])
      (bytes (1 ∷ 9 ∷ 2 ∷ [])) one_foreign one_foreign_keys first_alone first_readable behind_first
      foreign_value foreign_unreadable

-- The key and the vector stand in the clear; the first number of the metadata is the length of the type.
abbrev toy_decode : List ℕ → Option (Option Text × Option Text)
toy_decode [] = none
toy_decode (n ∷ s) = some (some (take n s), some (drop n s))

abbrev toy_open : ℕ → List ℕ → Option (List ℕ)
toy_open k (iv ∷ j ∷ b) = if text_eq (j ∷ []) (k ∷ []) then some b else none
toy_open k _ = none

abbrev offline : Services
offline = record {
  CryptoKey = ℕ;
  encrypt = λ iv k b. iv ∷ k ∷ b;
  decrypt = toy_open;
  sha256_hex = λ b. codes "c0ffee";
  encode_meta = λ m f. length m ∷ (m ++ f);
  decode_meta = toy_decode;
  upload = λ vault checksum b. false;
  fetch = λ vault checksum. none;
}

offline_lawful : LawfulServices offline
offline_lawful = record {
  decrypt-encrypt = λ iv k b. rw (text_eq_refl (k ∷ [])) refl;
  decode-encode = λ m f i. some (some (take-append m f i), some (drop-append m f i));
}

abbrev empty_blobs : Blobs.Blobs
empty_blobs = record { db = []; url_cache = []; next_iv = 0 }

load-store_blob_example :
    load_blob_decrypted offline
      (codes "v1")
      (store_blob offline
        (codes "v1")
        (1 ∷ 2 ∷ [])
        (codes "image/png")
        (codes "a.png")
        7
        empty_blobs).0
      7
      (store_blob offline
        (codes "v1")
        (1 ∷ 2 ∷ [])
        (codes "image/png")
        (codes "a.png")
        7
        empty_blobs).1
    ≡ (
      some (
        1 ∷ 2 ∷ [],
        record { mime_type = codes "image/png"; filename = codes "a.png"; size = 2 },
      ),
      (store_blob offline
          (codes "v1")
          (1 ∷ 2 ∷ [])
          (codes "image/png")
          (codes "a.png")
          7
          empty_blobs).1,
    )
load-store_blob_example =
    load-store_blob offline (codes "v1") (1 ∷ 2 ∷ []) (codes "image/png") (codes "a.png") 7
      empty_blobs offline_lawful (omega arith) (omega arith)

-- One blob is there and its upload fails; the data of the other are missing.
abbrev two_flags : Blobs.Blobs
two_flags = record {
  db =
      (codes "blob:v1/a", Blobs.blob (9 ∷ []))
      ∷ (codes "blobDirty:v1/a", Blobs.flag)
      ∷ (codes "blobDirty:v1/b", Blobs.flag)
      ∷ [];
  url_cache = [];
  next_iv = 0;
}

get-flush_dirty_blobs_example :
    Maps.get (codes "blobDirty:v1/a") (flush_dirty_blobs offline two_flags).db ≡ (
      if starts_with (codes "blobDirty:v1/a") dirty_prefix
        && is_flushed offline (codes "blobDirty:v1/a") two_flags.db
      then none
      else Maps.get (codes "blobDirty:v1/a") two_flags.db)
get-flush_dirty_blobs_example = get-flush_dirty_blobs offline (codes "blobDirty:v1/a") two_flags
