-- ===== src/Storage/Rekey/Stopping.antt =====
-- frontend/src/lib/automerge-store.ts: a change of the key that stops at a record.
use lunch_loxs.Prelude.{
  ◌≡◌, refl, sym, ap, subst, ◌∙◌, true, false, List, [], ◌∷◌, ◌++◌, none, some, arith, Text, All,
  Option-cases, inl, inr,
}
use lunch_loxs.Prelude.Sets.{has, IsDistinct}
use lunch_loxs.Platform.{Platform, Lawful}
use lunch_loxs.Storage.{Value, get_from_db}
use lunch_loxs.Storage.Rekey.{
  Records, AllReadable, decrypt_value, read_record, put_encrypted, re_encrypt_docs,
  re_encrypt_all_docs, doc_keys,
}
use lunch_loxs.Storage.Rekey.Rewriting.{re_encrypt_docs_readable, re_encrypt_docs_other}

module _ (p : Platform) (lawful : Lawful p) (old_key new_key : p.CryptoKey) where
  re_encrypt_docs-append :
      (ks rest : List Text) (s : Records p)
      → (re_encrypt_docs p old_key new_key ks s).is_done ≡ true
      → re_encrypt_docs p old_key new_key (ks ++ rest) s
        ≡ re_encrypt_docs p old_key new_key rest (re_encrypt_docs p old_key new_key ks s).records
  unfolding re_encrypt_docs
  re_encrypt_docs-append [] rest s h = refl
  re_encrypt_docs-append (k ∷ ks) rest s h = elim (Option-cases (get_from_db s.db k)) [
    | inl e ↦ ground (arith, e, h, re_encrypt_docs-append ks rest s)
    | inr (v, e) ↦ elim (Option-cases (decrypt_value p old_key v)) [
      | inl f ↦ ground (arith, e, f, h)
      | inr (m, f) ↦
          ground (arith, e, f, h, re_encrypt_docs-append ks rest (put_encrypted p k new_key m s))
    ]
  ]

  stop_here :
      (k : Text) (rest : List Text) (v : Value p.Bytes) (s : Records p)
      → get_from_db s.db k ≡ some v
      → decrypt_value p old_key v ≡ none
      → re_encrypt_docs p old_key new_key (k ∷ rest) s ≡ record { is_done = false; records = s }
  unfolding re_encrypt_docs
  stop_here k rest v s e f = ground (arith, e, f)

  all_docs_stopped :
      (s t : Records p)
      → re_encrypt_docs p old_key new_key (doc_keys p s.db) s
        ≡ record { is_done = false; records = t }
      → re_encrypt_all_docs p old_key new_key s ≡ record { is_done = false; records = t }
  unfolding re_encrypt_all_docs
  all_docs_stopped s t e = rw (re_encrypt_all_docs, ap (λ o. o.is_done) e) e

  untouched :
      (ks js : List Text) (s : Records p)
      → All (λ j. has j ks ≡ false) js
      → All
          (λ j.
            get_from_db (re_encrypt_docs p old_key new_key ks s).records.db j ≡ get_from_db s.db j)
          js
  untouched ks [] s h = tt
  untouched ks (j ∷ js) s (n, h) =
      (re_encrypt_docs_other p lawful old_key new_key ks j s n, untouched ks js s h)

  -- A change of the key fails at the first document that cannot be decrypted, and is not undone: the
  -- documents before it are left under the new key, and it and those behind it as they were.
  pub re_encrypt_all_docs_stops :
      (ks : List Text) (k : Text) (rest : List Text) (v : Value p.Bytes) (s : Records p)
      → doc_keys p s.db ≡ ks ++ k ∷ rest
      → IsDistinct ks
      → AllReadable p old_key ks s.db
      → All (λ j. has j ks ≡ false) (k ∷ rest)
      → get_from_db s.db k ≡ some v
      → decrypt_value p old_key v ≡ none
      → ((re_encrypt_all_docs p old_key new_key s).is_done ≡ false)
        × All
            (λ j.
              read_record p new_key j (re_encrypt_all_docs p old_key new_key s).records.db
              ≡ read_record p old_key j s.db)
            ks
        × All
            (λ j.
              get_from_db (re_encrypt_all_docs p old_key new_key s).records.db j
              ≡ get_from_db s.db j)
            (k ∷ rest)
  re_encrypt_all_docs_stops ks k rest v s keys distinct readable others e f =
      let (done, all_read) =
        re_encrypt_docs_readable p lawful old_key new_key ks s distinct readable in
      let t = (re_encrypt_docs p old_key new_key ks s).records in
      let kept = re_encrypt_docs_other p lawful old_key new_key ks k s others.0 in
      let stopped = all_docs_stopped s t (
        ap (λ js. re_encrypt_docs p old_key new_key js s) keys
        ∙ re_encrypt_docs-append ks (k ∷ rest) s done
        ∙ stop_here k rest v t (kept ∙ e) f) in
      let Left : Records p → Type 0 =
        λ u. All (λ j. read_record p new_key j u.db ≡ read_record p old_key j s.db) ks in
      let Kept : Records p → Type 0 =
        λ u. All (λ j. get_from_db u.db j ≡ get_from_db s.db j) (k ∷ rest) in
      let same = ap (λ o. o.records) (sym stopped) in
      (
        ap (λ o. o.is_done) stopped,
        subst Left same all_read,
        subst Kept same (untouched ks (k ∷ rest) s others),
      )
