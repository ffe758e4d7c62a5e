-- ===== src/Blobs/Loading.antt =====
-- frontend/src/lib/blob-client.ts: loading a blob that was stored.
use lunch_loxs.Prelude.{
  ℕ, suc, ◌<◌, ◌≡◌, refl, ap, ◌∙◌, Bool, true, false, ◌++◌, Option, some, arith, Text, length,
  text_eq, text_eq_refl, if◌then◌else◌,
}
use lunch_loxs.Prelude.Maps
use lunch_loxs.Prelude.Maps.{get-put, get-remove}
use lunch_loxs.Blobs.{
  Bytes, Services, LawfulServices, Blobs, BlobMeta, blob, blob_key, blob_prefix, meta_prefix,
  dirty_prefix, get_blob, store_blob, load_blob_decrypted, pack_encrypted_blob, is_packed,
  meta_part, blob_part, idb_put, idb_delete, get_or_fetch, meta_of, load_raw, load_found, get_meta,
  BlobStore, BlobValue, meta, flag,
}
use lunch_loxs.Blobs.Format.{packed, meta_part-packed, blob_part-packed, is_packed-packed}

get_after :
    (sent : Bool) (k j₁ j₂ : Text) (x y z : BlobValue) (s : Blobs)
    → text_eq j₁ k ≡ false
    → text_eq j₂ k ≡ false
    → (let stored = idb_put j₁ z (idb_put j₂ y (idb_put k x s)) in
        Maps.get k (if sent then idb_delete j₁ stored else stored).db ≡ some x)
get_after sent k j₁ j₂ x y z s h₁ h₂ =
    let db₁ = Maps.put k x s.db in
    let db₂ = Maps.put j₂ y db₁ in
    ground (
      arith,
      h₁,
      h₂,
      get-put k k x s.db,
      get-put j₂ k y db₁,
      get-put j₁ k z db₂,
      text_eq_refl k,
      get-remove j₁ k (Maps.put j₁ z db₂),
    )

get_blob_of :
    (key : Text) (b : Bytes) (db : BlobStore)
    → Maps.get (blob_prefix ++ key) db ≡ some (blob b)
    → get_blob key db ≡ some b
unfolding get_blob
get_blob_of key b db e = rw (get_blob, e) refl

module _ (v : Services) where
  -- What is stored for a blob.
  unfoldable pub stored_bytes : Bytes → Text → Text → v.CryptoKey → ℕ → Bytes
  stored_bytes plaintext m f key iv =
      packed (v.encrypt iv key (v.encode_meta m f)) (v.encrypt (suc iv) key plaintext)

  get_stored :
      (vault : Text) (plaintext : Bytes) (m f : Text) (key : v.CryptoKey) (s : Blobs)
      → get_blob
          (blob_key vault (v.sha256_hex plaintext))
          (store_blob v vault plaintext m f key s).1.db
        ≡ some (stored_bytes plaintext m f key s.next_iv)
  unfolding store_blob pack_encrypted_blob stored_bytes text_eq
  get_stored vault plaintext m f key s =
      let checksum = v.sha256_hex plaintext in
      let k = blob_key vault checksum in
      let b = stored_bytes plaintext m f key s.next_iv in
      let found : BlobMeta = record { mime_type = m; filename = f; size = length plaintext } in
      get_blob_of k b (store_blob v vault plaintext m f key s).1.db (
        get_after (v.upload vault checksum b) (blob_prefix ++ k) (dirty_prefix ++ k)
          (meta_prefix ++ k) (blob b) (meta found) flag (record s { next_iv = suc (suc s.next_iv) })
          refl refl)

  got :
      (vault checksum : Text) (raw : Bytes) (s : Blobs)
      → get_blob (blob_key vault checksum) s.db ≡ some raw
      → get_or_fetch v vault checksum s ≡ (some raw, s)
  unfolding get_or_fetch
  got vault checksum raw s g = rw (get_or_fetch, g) refl

  load_raw_packed :
      (known : Option BlobMeta) (raw plaintext : Bytes) (key : v.CryptoKey)
      → is_packed raw ≡ true
      → v.decrypt key (blob_part raw) ≡ some plaintext
      → load_raw v known raw key
        ≡ some (plaintext, meta_of v (meta_part raw) (length plaintext) key)
  unfolding load_raw
  load_raw_packed known raw plaintext key h d = rw (load_raw, h, d) (rw h refl)

  load_packed :
      (vault checksum : Text) (raw plaintext : Bytes) (key : v.CryptoKey) (s : Blobs)
      → get_blob (blob_key vault checksum) s.db ≡ some raw
      → is_packed raw ≡ true
      → v.decrypt key (blob_part raw) ≡ some plaintext
      → load_blob_decrypted v vault checksum key s
        ≡ (some (plaintext, meta_of v (meta_part raw) (length plaintext) key), s)
  unfolding load_blob_decrypted load_found
  load_packed vault checksum raw plaintext key s g h d =
      ap (load_found v (blob_key vault checksum) key) (got vault checksum raw s g)
      ∙ (ap (λ o. (o, s))
          (load_raw_packed (get_meta (blob_key vault checksum) s.db) raw plaintext key h d))

  meta_found :
      (raw : Bytes) (m f : Text) (size : ℕ) (key : v.CryptoKey)
      → v.decrypt key raw ≡ some (v.encode_meta m f)
      → v.decode_meta (v.encode_meta m f) ≡ some (some m, some f)
      → meta_of v raw size key ≡ record { mime_type = m; filename = f; size = size }
  unfolding meta_of
  meta_found raw m f size key d e = rw (meta_of, d, e) refl

  -- A blob that was stored is loaded with its content, type, name and size, whether the upload
  -- succeeded or not, and loading changes nothing. The encrypted metadata has to fit the four bytes
  -- of its length, and the two encrypted parts must not both be empty.
  pub load-store_blob :
      (vault : Text) (plaintext : Bytes) (m f : Text) (key : v.CryptoKey) (s : Blobs)
      → LawfulServices v
      → length (v.encrypt s.next_iv key (v.encode_meta m f)) < 4294967296
      → 0
        < length
            (v.encrypt s.next_iv key (v.encode_meta m f) ++ v.encrypt (suc s.next_iv) key plaintext)
      → load_blob_decrypted v vault
          (store_blob v vault plaintext m f key s).0
          key
          (store_blob v vault plaintext m f key s).1
        ≡ (
          some (plaintext, record { mime_type = m; filename = f; size = length plaintext }),
          (store_blob v vault plaintext m f key s).1,
        )
  unfolding store_blob stored_bytes
  load-store_blob vault plaintext m f key s lawful small nonempty =
      let em = v.encrypt s.next_iv key (v.encode_meta m f) in
      let eb = v.encrypt (suc s.next_iv) key plaintext in
      let s' = (store_blob v vault plaintext m f key s).1 in
      let meta_read =
        ap (v.decrypt key) (meta_part-packed em eb small)
        ∙ lawful.decrypt-encrypt s.next_iv key (v.encode_meta m f) in
      load_packed vault (v.sha256_hex plaintext) (packed em eb) plaintext key s'
        (get_stored vault plaintext m f key s) (is_packed-packed em eb nonempty)
        (ap (v.decrypt key) (blob_part-packed em eb small)
          ∙ lawful.decrypt-encrypt (suc s.next_iv) key plaintext)
      ∙ ap (λ n. (some (plaintext, n), s'))
          (meta_found (meta_part (packed em eb)) m f (length plaintext) key meta_read
            (lawful.decode-encode m f))
