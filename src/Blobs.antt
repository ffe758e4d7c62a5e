-- ===== src/Blobs.antt =====
-- frontend/src/lib/blob-client.ts: encrypted attachments, kept in the database and uploaded when that
-- is possible. Bytes are numbers; the cipher, the digest, the JSON of the metadata and the server are
-- parameters. Each function runs in one piece; an upload that is started is also finished in it.
pub mod Packing
pub mod Format
pub mod Loading
pub mod Flush
unfoldable pub use Packing.{
  revoke_object_urls, get_blob, get_meta, be32, from_be32, is_packed, meta_length, meta_part,
  blob_part,
}
pub use Packing.*
use lunch_loxs.Prelude.{
  ℕ, zero, suc, ◌+◌, ◌*◌, ◌<◌, ◌≡◌, Bool, true, false, not, ◌&&◌, List, [], ◌∷◌, ◌++◌, Option, none,
  some, Text, codes, starts_with, drop, take, length, ltb, ◌==◌, keep_if, index_of, or_default,
  if◌then◌else◌,
}
use Prim.Native.Nat.{◌/◌, ◌%◌}
use lunch_loxs.Prelude.Maps

module _ (v : Services) where
  unfoldable pub pack_encrypted_blob : Bytes → Text → Text → v.CryptoKey → Blobs → Bytes × Blobs
  unfolding be32
  pack_encrypted_blob plaintext mime_type filename key s =
      let enc_meta = v.encrypt s.next_iv key (v.encode_meta mime_type filename) in
      let enc_blob = v.encrypt (suc s.next_iv) key plaintext in
      (
        blob_meta_version ∷ (be32 (length enc_meta) ++ (enc_meta ++ enc_blob)),
        record s { next_iv = suc (suc s.next_iv) },
      )

  unfoldable pub store_blob : Text → Bytes → Text → Text → v.CryptoKey → Blobs → Text × Blobs
  unfolding pack_encrypted_blob
  store_blob vault_id plaintext mime_type filename enc_key s =
      let checksum = v.sha256_hex plaintext in
      let (combined, s₁) = pack_encrypted_blob plaintext mime_type filename enc_key s in
      let key = blob_key vault_id checksum in
      let m : BlobMeta = record {
        mime_type = mime_type;
        filename = filename;
        size = length plaintext;
      } in
      let s₂ = idb_put (blob_prefix ++ key) (blob combined) s₁ in
      let s₃ = idb_put (dirty_prefix ++ key) flag (idb_put (meta_prefix ++ key) (meta m) s₂) in
      (
        checksum,
        if v.upload vault_id checksum combined then idb_delete (dirty_prefix ++ key) s₃ else s₃,
      )

  -- The metadata of a packed blob is cached where there is none; any error in this is ignored. A field
  -- that is missing in it is empty here.
  unfoldable pub cache_meta : Text → Bytes → ℕ → v.CryptoKey → Blobs → Blobs
  unfolding get_meta
  cache_meta key enc_meta size enc_key s = elim (v.decrypt enc_key enc_meta) [
    | none ↦ s
    | some json ↦ elim (v.decode_meta json) [
      | none ↦ s
      | some (m, f) ↦ elim (get_meta key s.db) [
        | some existing ↦ s
        | none ↦
            idb_put (meta_prefix ++ key)
              (meta
                (record { mime_type = or_default m []; filename = or_default f []; size = size }))
              s
      ]
    ]
  ]

  -- `none`: decryption throws. The result is the object URL, given by what it shows.
  unfoldable pub unpack_and_cache : Text → Bytes → v.CryptoKey → Blobs → Option Bytes × Blobs
  unfolding is_packed meta_part blob_part cache_meta
  unpack_and_cache key raw enc_key s =
      let packed = is_packed raw in
      elim (v.decrypt enc_key (if packed then blob_part raw else raw)) [
        | none ↦ (none, s)
        | some plaintext ↦
            let s₁ =
              if packed then cache_meta key (meta_part raw) (length plaintext) enc_key s else s in
            (some plaintext, record s₁ { url_cache = Maps.set key plaintext s₁.url_cache })
      ]

  -- The blob from the database, or else from the server, which is then kept.
  unfoldable pub get_or_fetch : Text → Text → Blobs → Option Bytes × Blobs
  unfolding get_blob
  get_or_fetch vault_id checksum s =
      let key = blob_key vault_id checksum in
      elim (get_blob key s.db) [
        | some b ↦ (some b, s)
        | none ↦ elim (v.fetch vault_id checksum) [
          | none ↦ (none, s)
          | some b ↦ (some b, idb_put (blob_prefix ++ key) (blob b) s)
        ]
      ]

  unfoldable pub load_blob_url : Text → Text → v.CryptoKey → Blobs → Option Bytes × Blobs
  unfolding get_or_fetch unpack_and_cache
  load_blob_url vault_id checksum enc_key s =
      let key = blob_key vault_id checksum in
      elim (Maps.get key s.url_cache) [
        | some cached ↦ (some cached, s)
        | none ↦
            let (found, s₁) = get_or_fetch vault_id checksum s in
            elim found [ none ↦ (none, s₁) | some raw ↦ unpack_and_cache key raw enc_key s₁ ]
      ]

  abbrev octet_stream : Text
  octet_stream = codes "application/octet-stream"

  -- The metadata that comes with a blob.
  unfoldable pub meta_of : Bytes → ℕ → v.CryptoKey → BlobMeta
  meta_of enc_meta size enc_key =
      let unknown : BlobMeta = record { mime_type = octet_stream; filename = []; size = size } in
      elim (v.decrypt enc_key enc_meta) [
        | none ↦ unknown
        | some json ↦ elim (v.decode_meta json) [
          | none ↦ unknown
          | some (m, f) ↦ record {
            mime_type = or_default m octet_stream;
            filename = or_default f [];
            size = size;
          }
        ]
      ]

  -- The content and the metadata of a blob; `none`: decryption throws. The metadata of one that is
  -- not packed is what the database holds.
  unfoldable pub load_raw : Option BlobMeta → Bytes → v.CryptoKey → Option (Bytes × BlobMeta)
  unfolding is_packed meta_part blob_part meta_of
  load_raw known raw enc_key =
      let packed = is_packed raw in
      elim (v.decrypt enc_key (if packed then blob_part raw else raw)) [
        | none ↦ none
        | some plaintext ↦
            let unknown : BlobMeta = record {
              mime_type = octet_stream;
              filename = [];
              size = length plaintext;
            } in
            let m =
              if packed
              then meta_of (meta_part raw) (length plaintext) enc_key
              else or_default known unknown in
            some (plaintext, m)
      ]

  unfoldable pub load_found :
      Text → v.CryptoKey → Option Bytes × Blobs → Option (Bytes × BlobMeta) × Blobs
  unfolding load_raw get_meta
  load_found key enc_key (none, s) = (none, s)
  load_found key enc_key (some raw, s) = (load_raw (get_meta key s.db) raw enc_key, s)

  -- `none`: the blob is found nowhere, or decryption throws
  unfoldable pub load_blob_decrypted :
      Text → Text → v.CryptoKey → Blobs → Option (Bytes × BlobMeta) × Blobs
  unfolding get_or_fetch load_found
  load_blob_decrypted vault_id checksum enc_key s =
      load_found (blob_key vault_id checksum) enc_key (get_or_fetch vault_id checksum s)

  -- One round of the loop of `flushDirtyBlobs`.
  unfoldable pub flush_one : Text → Blobs → Blobs
  unfolding get_blob
  flush_one dirty_key s =
      let key = drop 10 dirty_key in
      elim (index_of b'/' key) [
        | none ↦ s
        | some slash ↦ elim (get_blob key s.db) [
          | none ↦ idb_delete dirty_key s
          | some b ↦
              if v.upload (take slash key) (drop (suc slash) key) b
              then idb_delete dirty_key s
              else s
        ]
      ]

  unfoldable pub flush_all : List Text → Blobs → Blobs
  unfolding flush_one
  flush_all [] s = s
  flush_all (k ∷ ks) s = flush_all ks (flush_one k s)

  unfoldable pub flush_dirty_blobs : Blobs → Blobs
  unfolding flush_all
  flush_dirty_blobs s = flush_all (keep_if (λ k. starts_with k dirty_prefix) (Maps.keys s.db)) s
