-- ===== src/Storage/Rekey/Cache.antt =====
-- frontend/src/lib/automerge-store.ts: the local cache across saving and a change of the key.
use lunch_loxs.Prelude.{◌≡◌, refl, sym, ap, ◌∙◌, some, arith, Option-cases, inl, inr}
use lunch_loxs.Prelude.Maps
use lunch_loxs.Prelude.Sets.{IsDistinct}
use lunch_loxs.Platform.{Platform, Lawful}
use lunch_loxs.Storage.{Database}
use lunch_loxs.Storage.Rekey.{
  Records, Codec, LocalCache, read_record, put_encrypted, save_local_cache, load_local_cache,
  re_encrypt_docs, re_encrypt_cache, re_encrypt_all_docs, doc_keys, AllReadable, local_cache_key,
}
use lunch_loxs.Storage.Rekey.Rewriting.{read_written, read_record_same, re_encrypt_docs_other}
use lunch_loxs.Storage.Rekey.Readable.{all_docs_readable_done, cache_no_key}

module _ (p : Platform) (lawful : Lawful p) (codec : Codec p) where
  load_of :
      (k : p.CryptoKey) (m : p.Bytes) (db : Database p.Bytes)
      → read_record p k local_cache_key db ≡ some m
      → load_local_cache p codec k db ≡ codec.decode m
  unfolding load_local_cache
  load_of k m db e = rw (load_local_cache, e) refl

  -- A cache that was saved is loaded again with the same key.
  pub load-save_local_cache :
      (k : p.CryptoKey) (cache : LocalCache) (s : Records p)
      → codec.decode (codec.encode cache) ≡ some cache
      → load_local_cache p codec k (save_local_cache p codec k cache s).db ≡ some cache
  unfolding save_local_cache
  load-save_local_cache k cache s h =
      load_of k (codec.encode cache) (save_local_cache p codec k cache s).db
        (read_written p lawful k k local_cache_key (codec.encode cache) s)
      ∙ h

  loaded :
      (k : p.CryptoKey) (db : Database p.Bytes) (cache : LocalCache)
      → load_local_cache p codec k db ≡ some cache
      → (m : p.Bytes) × (read_record p k local_cache_key db ≡ some m)
        × (codec.decode m ≡ some cache)
  unfolding load_local_cache
  loaded k db cache h = elim (Option-cases (read_record p k local_cache_key db)) [
    | inl e ↦ absurd (ground (arith, h, e))
    | inr (m, e) ↦ (m, e, sym (load_of k m db e) ∙ h)
  ]

  cache_put :
      (old_key new_key : p.CryptoKey) (m : p.Bytes) (t : Records p)
      → read_record p old_key local_cache_key t.db ≡ some m
      → re_encrypt_cache p old_key new_key t ≡ put_encrypted p local_cache_key new_key m t
  unfolding re_encrypt_cache
  cache_put old_key new_key m t e = rw (re_encrypt_cache, e) refl

  -- When every stored document can be read with the old key, then what the local cache gave before
  -- a change of the key it gives with the new key afterwards.
  pub load_re_encrypted :
      (old_key new_key : p.CryptoKey) (cache : LocalCache) (s : Records p)
      → IsDistinct (Maps.keys s.db)
      → AllReadable p old_key (doc_keys p s.db) s.db
      → load_local_cache p codec old_key s.db ≡ some cache
      → load_local_cache p codec new_key (re_encrypt_all_docs p old_key new_key s).records.db
        ≡ some cache
  load_re_encrypted old_key new_key cache s distinct readable h =
      let (m, e, d) = loaded old_key s.db cache h in
      let t = (re_encrypt_docs p old_key new_key (doc_keys p s.db) s).records in
      let kept = read_record_same p lawful old_key new_key old_key local_cache_key t.db s.db (
        re_encrypt_docs_other p lawful old_key new_key (doc_keys p s.db) local_cache_key s
          (cache_no_key p lawful old_key new_key s)) in
      load_of new_key m (re_encrypt_all_docs p old_key new_key s).records.db (
        ap (λ o. read_record p new_key local_cache_key o.records.db)
          (all_docs_readable_done p lawful old_key new_key s distinct readable)
        ∙ ap (λ r. read_record p new_key local_cache_key r.db)
            (cache_put old_key new_key m t (kept ∙ e))
        ∙ read_written p lawful old_key new_key local_cache_key m t)
      ∙ d
