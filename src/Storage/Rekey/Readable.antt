-- ===== src/Storage/Rekey/Readable.antt =====
-- frontend/src/lib/automerge-store.ts: what can be read after the key was changed.
use lunch_loxs.Prelude.{
  ◌≡◌, refl, subst, ap, ◌∙◌, Bool, true, false, List, [], ◌∷◌, arith, Text, text_eq, text_eq_iff,
  starts_with, keep_if, All, Option-cases, inl, inr, Bool-cases,
}
use lunch_loxs.Prelude.Maps
use lunch_loxs.Prelude.Maps.{get-put}
use lunch_loxs.Prelude.Sets.{has, IsDistinct, has-keep_if}
use lunch_loxs.Platform.{Platform, Lawful}
use lunch_loxs.Storage.{bytes, get_from_db, put_to_db}
use lunch_loxs.Storage.Rekey.{
  Records, put_encrypted, read_record, re_encrypt_docs, re_encrypt_cache, re_encrypt_all_docs,
  doc_keys, AllReadable, doc_prefix, local_cache_key,
}
use lunch_loxs.Storage.Rekey.Rewriting.{
  re_encrypt_docs_other, read_record_same, re_encrypt_docs_readable,
}

module _ (p : Platform) (lawful : Lawful p) (old_key new_key : p.CryptoKey) where
  cache_no_doc : starts_with local_cache_key doc_prefix ≡ false
  unfolding starts_with
  cache_no_doc = refl

  re_encrypt_cache_other :
      (k : Text) (s : Records p)
      → text_eq local_cache_key k ≡ false
      → get_from_db (re_encrypt_cache p old_key new_key s).db k ≡ get_from_db s.db k
  unfolding re_encrypt_cache put_encrypted get_from_db put_to_db
  re_encrypt_cache_other k s h = elim (Option-cases (read_record p old_key local_cache_key s.db)) [
    | inl e ↦ ground (arith, e)
    | inr (m, e) ↦
        ground (arith, e, h, get-put local_cache_key k (bytes (p.encrypt s.next_iv new_key m)) s.db)
  ]

  -- A change of the key touches documents and the local cache only, also when it fails.
  pub re_encrypt_all_docs_other :
      (k : Text) (s : Records p)
      → text_eq local_cache_key k ≡ false
      → has k (doc_keys p s.db) ≡ false
      → get_from_db (re_encrypt_all_docs p old_key new_key s).records.db k ≡ get_from_db s.db k
  unfolding re_encrypt_all_docs
  re_encrypt_all_docs_other k s h n =
      let o = re_encrypt_docs p old_key new_key (doc_keys p s.db) s in
      elim (Bool-cases o.is_done) [
        | inl e ↦ ground (
          arith,
          e,
          re_encrypt_cache_other k o.records h,
          re_encrypt_docs_other p lawful old_key new_key (doc_keys p s.db) k s n,
        )
        | inr e ↦
            ground
              (arith, e, re_encrypt_docs_other p lawful old_key new_key (doc_keys p s.db) k s n)
      ]

  keep_if-IsDistinct :
      (q : Text → Bool) (ks : List Text) → IsDistinct ks → IsDistinct (keep_if q ks)
  keep_if-IsDistinct q [] h = tt
  keep_if-IsDistinct q (k ∷ ks) (n, h) =
      ground (arith, n, keep_if-IsDistinct q ks h, has-keep_if q k ks)

  at_has : (P : Text → Type 0) (k : Text) (ks : List Text) → has k ks ≡ true → All P ks → P k
  unfolding has
  at_has P k [] h ps = cc
  at_has P k (j ∷ ks) h (q, ps) = elim (Bool-cases (text_eq j k)) [
    | inl e ↦ subst P ((text_eq_iff j k).0 e) q
    | inr f ↦ at_has P k ks (ground (arith, h, f)) ps
  ]

  all_docs_done :
      (s : Records p)
      → (re_encrypt_docs p old_key new_key (doc_keys p s.db) s).is_done ≡ true
      → re_encrypt_all_docs p old_key new_key s ≡ record {
        is_done = true;
        records =
            re_encrypt_cache p old_key new_key
              (re_encrypt_docs p old_key new_key (doc_keys p s.db) s).records;
      }
  unfolding re_encrypt_all_docs
  all_docs_done s e = rw (re_encrypt_all_docs, e) refl

  not_cache :
      (s : Records p) (k : Text)
      → has k (doc_keys p s.db) ≡ true
      → text_eq local_cache_key k ≡ false
  unfolding doc_keys starts_with
  not_cache s k h = ground (
    arith,
    h,
    has-keep_if (λ j. starts_with j doc_prefix) k (Maps.keys s.db),
    text_eq_iff local_cache_key k,
    cache_no_doc,
  )

  pub all_docs_readable_done :
      (s : Records p)
      → IsDistinct (Maps.keys s.db)
      → AllReadable p old_key (doc_keys p s.db) s.db
      → re_encrypt_all_docs p old_key new_key s ≡ record {
        is_done = true;
        records =
            re_encrypt_cache p old_key new_key
              (re_encrypt_docs p old_key new_key (doc_keys p s.db) s).records;
      }
  unfolding doc_keys
  all_docs_readable_done s distinct readable =
      let fresh = keep_if-IsDistinct (λ j. starts_with j doc_prefix) (Maps.keys s.db) distinct in
      all_docs_done s
        (re_encrypt_docs_readable p lawful old_key new_key (doc_keys p s.db) s fresh readable).0

  pub cache_no_key : (s : Records p) → has local_cache_key (doc_keys p s.db) ≡ false
  unfolding doc_keys
  cache_no_key s = ground (
    arith,
    has-keep_if (λ j. starts_with j doc_prefix) local_cache_key (Maps.keys s.db),
    cache_no_doc,
  )

  -- When every stored document can be read with the old key, then changing the key succeeds, and
  -- each document reads with the new key as it did with the old one.
  pub re_encrypt_all_docs_readable :
      (s : Records p) (k : Text)
      → IsDistinct (Maps.keys s.db)
      → AllReadable p old_key (doc_keys p s.db) s.db
      → has k (doc_keys p s.db) ≡ true
      → ((re_encrypt_all_docs p old_key new_key s).is_done ≡ true)
        × (read_record p new_key k (re_encrypt_all_docs p old_key new_key s).records.db
            ≡ read_record p old_key k s.db)
  unfolding doc_keys
  re_encrypt_all_docs_readable s k distinct readable h =
      let ks = doc_keys p s.db in
      let t = re_encrypt_docs p old_key new_key ks s in
      let fresh = keep_if-IsDistinct (λ j. starts_with j doc_prefix) (Maps.keys s.db) distinct in
      let (done, all_read) =
        re_encrypt_docs_readable p lawful old_key new_key ks s fresh readable in
      let e = all_docs_done s done in
      (
        ap (λ o. o.is_done) e,
        ap (λ o. read_record p new_key k o.records.db) e
            ∙ read_record_same p lawful old_key new_key new_key k
                (re_encrypt_cache p old_key new_key t.records).db t.records.db
                (re_encrypt_cache_other k t.records (not_cache s k h))
            ∙ at_has (λ j. read_record p new_key j t.records.db ≡ read_record p old_key j s.db) k ks
                h all_read,
      )
