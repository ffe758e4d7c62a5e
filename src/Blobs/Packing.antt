-- ===== src/Blobs/Packing.antt =====
-- frontend/src/lib/blob-client.ts: the state of the attachments, and the bytes of a packed blob.
use lunch_loxs.Prelude.{
  ℕ, suc, ◌+◌, ◌*◌, ◌≡◌, Bool, false, ◌&&◌, List, [], ◌∷◌, ◌++◌, Option, none, some, Text, codes,
  drop, take, length, ltb, ◌==◌,
}
use Prim.Native.Nat.{◌/◌, ◌%◌}
use lunch_loxs.Prelude.Maps

abbrev pub Bytes : Type 0
Bytes = List ℕ

pub record BlobMeta : Type 0 where
  pub mime_type : Text
  pub filename : Text
  pub size : ℕ

-- The cipher (`decrypt`: `none`: it throws), SHA-256 in hexadecimal, the JSON of a file's type and
-- name (`none`: it does not parse; a field may be missing), and the requests to the server.
pub record Services : Type 1 where
  pub CryptoKey : Type 0
  pub encrypt : ℕ → CryptoKey → Bytes → Bytes
  pub decrypt : CryptoKey → Bytes → Option Bytes
  pub sha256_hex : Bytes → Text
  pub encode_meta : Text → Text → Bytes
  pub decode_meta : Bytes → Option (Option Text × Option Text)
  pub upload : Text → Text → Bytes → Bool
  pub fetch : Text → Text → Option Bytes

-- What the functions rely on.
pub record LawfulServices (v : Services) : Type 0 where
  pub decrypt-encrypt :
      (iv : ℕ) (k : v.CryptoKey) (b : Bytes) → v.decrypt k (v.encrypt iv k b) ≡ some b
  pub decode-encode : (m f : Text) → v.decode_meta (v.encode_meta m f) ≡ some (some m, some f)

-- The values that the functions store.
pub data BlobValue : Type 0 where
  blob : Bytes → BlobValue
  meta : BlobMeta → BlobValue
  flag : BlobValue

abbrev pub BlobStore : Type 0
BlobStore = List (Text × BlobValue)

abbrev pub blob_prefix : Text
blob_prefix = codes "blob:"

abbrev pub meta_prefix : Text
meta_prefix = codes "blobMeta:"

abbrev pub dirty_prefix : Text
dirty_prefix = codes "blobDirty:"

-- `${vaultId}/${checksum}`
abbrev pub blob_key : Text → Text → Text
blob_key vault_id checksum = vault_id ++ b'/' ∷ checksum

-- The database, the cache of object URLs with what they show, and the source of initialisation
-- vectors.
pub record Blobs : Type 0 where
  pub db : BlobStore
  pub url_cache : List (Text × Bytes)
  pub next_iv : ℕ

unfoldable pub revoke_object_urls : Blobs → Blobs
revoke_object_urls s = record s { url_cache = [] }

abbrev pub idb_put : Text → BlobValue → Blobs → Blobs
idb_put key v s = record s { db = Maps.put key v s.db }

abbrev pub idb_delete : Text → Blobs → Blobs
idb_delete key s = record s { db = Maps.remove key s.db }

unfoldable pub get_blob : Text → BlobStore → Option Bytes
get_blob key db = elim (Maps.get (blob_prefix ++ key) db) [ some (blob b) ↦ some b | _ ↦ none ]

unfoldable pub get_meta : Text → BlobStore → Option BlobMeta
get_meta key db = elim (Maps.get (meta_prefix ++ key) db) [ some (meta m) ↦ some m | _ ↦ none ]

-- `setUint32` and `getUint32`, the highest byte first
unfoldable pub be32 : ℕ → Bytes
be32 n = (n / 16777216 % 256) ∷ (n / 65536 % 256) ∷ (n / 256 % 256) ∷ (n % 256) ∷ []

unfoldable pub from_be32 : Bytes → ℕ
from_be32 (a ∷ b ∷ c ∷ d ∷ s) = a * 16777216 + b * 65536 + c * 256 + d
from_be32 _ = 0

abbrev pub blob_meta_version : ℕ
blob_meta_version = 2

-- `data[0] === BLOB_META_VERSION && data.length > 5`
unfoldable pub is_packed : Bytes → Bool
is_packed [] = false
is_packed (a ∷ s) = a == blob_meta_version && ltb 5 (suc (length s))

unfoldable pub meta_length : Bytes → ℕ
unfolding from_be32
meta_length raw = from_be32 (drop 1 raw)

-- `data.slice(5, 5 + metaLen)` and `data.slice(5 + metaLen)`
unfoldable pub meta_part : Bytes → Bytes
unfolding meta_length
meta_part raw = take (meta_length raw) (drop 5 raw)

unfoldable pub blob_part : Bytes → Bytes
unfolding meta_length
blob_part raw = drop (5 + meta_length raw) raw
