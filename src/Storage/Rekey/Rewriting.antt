-- ===== src/Storage/Rekey/Rewriting.antt =====
-- frontend/src/lib/automerge-store.ts: records that are encrypted anew, one after the other.
use lunch_loxs.Prelude.{
  ◌≡◌, refl, sym, subst, ap, ◌∙◌, true, false, List, [], ◌∷◌, Option, none, some, arith, Text,
  text_eq, text_eq_iff, All, is_some, Option-cases, inl, inr, text_eq_refl, if◌then◌else◌,
}
use lunch_loxs.Prelude.Maps.{get-put}
use lunch_loxs.Prelude.Sets.{has, IsDistinct}
use lunch_loxs.Platform.{Platform, Lawful}
use lunch_loxs.Storage.{Database, bytes, get_from_db, put_to_db}
use lunch_loxs.Storage.Rekey.{
  Records, put_encrypted, decrypt_value, read_record, re_encrypt_docs, AllReadable,
}

module _ (p : Platform) (lawful : Lawful p) (old_key new_key : p.CryptoKey) where
  read-put_encrypted :
      (j k : Text) (key : p.CryptoKey) (m : p.Bytes) (s : Records p)
      → read_record p key k (put_encrypted p j new_key m s).db ≡ (
          if text_eq j k
          then p.decrypt key (p.encrypt s.next_iv new_key m)
          else read_record p key k s.db)
  unfolding read_record put_encrypted get_from_db put_to_db decrypt_value
  read-put_encrypted j k key m s =
      ground (arith, get-put j k (bytes (p.encrypt s.next_iv new_key m)) s.db)

  -- A record that was written is read with the new key; others stay as they are.
  pub read_written :
      (j : Text) (m : p.Bytes) (s : Records p)
      → read_record p new_key j (put_encrypted p j new_key m s).db ≡ some m
  read_written j m s =
      read-put_encrypted j j new_key m s
      ∙ rw (text_eq_refl j) (lawful.decrypt-encrypt s.next_iv new_key m)

  read_other :
      (j k : Text) (key : p.CryptoKey) (m : p.Bytes) (s : Records p)
      → text_eq j k ≡ false
      → read_record p key k (put_encrypted p j new_key m s).db ≡ read_record p key k s.db
  read_other j k key m s h = read-put_encrypted j k key m s ∙ rw h refl

  -- One round on a record that can be decrypted.
  step_done :
      (key : Text) (keys : List Text) (m : p.Bytes) (s : Records p)
      → read_record p old_key key s.db ≡ some m
      → re_encrypt_docs p old_key new_key (key ∷ keys) s
        ≡ re_encrypt_docs p old_key new_key keys (put_encrypted p key new_key m s)
  unfolding re_encrypt_docs read_record
  step_done key keys m s e = elim (Option-cases (get_from_db s.db key)) [
    | inl n ↦ ground (arith, e, n)
    | inr (v, g) ↦ ground (arith, e, g)
  ]

  -- Records at other keys are not touched.
  pub re_encrypt_docs_other :
      (keys : List Text) (k : Text) (s : Records p)
      → has k keys ≡ false
      → get_from_db (re_encrypt_docs p old_key new_key keys s).records.db k ≡ get_from_db s.db k
  unfolding re_encrypt_docs has put_encrypted get_from_db put_to_db
  re_encrypt_docs_other [] k s h = refl
  re_encrypt_docs_other (key ∷ keys) k s h = elim (Option-cases (get_from_db s.db key)) [
    | inl e ↦ ground (arith, e, h, re_encrypt_docs_other keys k s)
    | inr (v, e) ↦ elim (Option-cases (decrypt_value p old_key v)) [
      | inl f ↦ ground (arith, e, f)
      | inr (m, f) ↦ ground (
        arith,
        e,
        f,
        h,
        re_encrypt_docs_other keys k (put_encrypted p key new_key m s),
        get-put key k (bytes (p.encrypt s.next_iv new_key m)) s.db,
        text_eq_iff key k,
      )
    ]
  ]

  pub read_record_same :
      (key : p.CryptoKey) (k : Text) (db db' : Database p.Bytes)
      → get_from_db db k ≡ get_from_db db' k
      → read_record p key k db ≡ read_record p key k db'
  unfolding read_record
  read_record_same key k db db' e = rw (read_record, e) refl

  back :
      (key : Text) (m : p.Bytes) (s : Records p) (db : Database p.Bytes) (keys : List Text)
      → has key keys ≡ false
      → All
          (λ k.
            read_record p new_key k db
            ≡ read_record p old_key k (put_encrypted p key new_key m s).db)
          keys
      → All (λ k. read_record p new_key k db ≡ read_record p old_key k s.db) keys
  unfolding has
  back key m s db [] h r = tt
  back key m s db (k ∷ keys) h (r, rs) = (
    r ∙ read_other key k old_key m s (ground (arith, h, text_eq_iff key k, text_eq_iff k key)),
    back key m s db keys (ground (arith, h)) rs,
  )

  some_of : (o : Option p.Bytes) → is_some o ≡ true → (m : p.Bytes) × (o ≡ some m)
  some_of none h = cc
  some_of (some m) h = (m, refl)

  still_readable :
      (key : Text) (keys : List Text) (m : p.Bytes) (s : Records p)
      → has key keys ≡ false
      → AllReadable p old_key keys s.db
      → AllReadable p old_key keys (put_encrypted p key new_key m s).db
  unfolding has
  still_readable key [] m s h r = tt
  still_readable key (k ∷ keys) m s h (r, rs) = (
    ground (arith, read_other key k old_key m s, text_eq_iff key k, text_eq_iff k key, h, r),
    still_readable key keys m s (ground (arith, h)) rs,
  )

  -- The loop over keys whose records can all be read: afterwards each is read with the new key as it
  -- was with the old one.
  pub re_encrypt_docs_readable :
      (keys : List Text) (s : Records p)
      → IsDistinct keys
      → AllReadable p old_key keys s.db
      → ((re_encrypt_docs p old_key new_key keys s).is_done ≡ true)
        × All
            (λ k.
              read_record p new_key k (re_encrypt_docs p old_key new_key keys s).records.db
              ≡ read_record p old_key k s.db)
            keys
  unfolding re_encrypt_docs
  re_encrypt_docs_readable [] s d r = (refl, tt)
  re_encrypt_docs_readable (key ∷ keys) s (n, d) (r, rs) =
      let (m, e) = some_of (read_record p old_key key s.db) r in
      let s' = put_encrypted p key new_key m s in
      let step = step_done key keys m s e in
      let (done, all_read) =
        re_encrypt_docs_readable keys s' d (still_readable key keys m s n rs) in
      let after : Records p → Type 0 =
        λ t. All (λ k. read_record p new_key k t.db ≡ read_record p old_key k s.db) (key ∷ keys) in
      let end = (re_encrypt_docs p old_key new_key keys s').records in
      (
        ap (λ o. o.is_done) step ∙ done,
        subst after (ap (λ o. o.records) (sym step)) (
          read_record_same new_key key end.db s'.db (re_encrypt_docs_other keys key s' n)
              ∙ read_written key m s
              ∙ sym e,
          back key m s end.db keys n all_read,
        ),
      )
