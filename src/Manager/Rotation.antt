-- ===== src/Manager/Rotation.antt =====
-- frontend/src/ui/account.ts, the change of the password, as far as documents are concerned: the
-- records are encrypted anew and the manager takes the new key. Documents that are open keep theirs.
use lunch_loxs.Prelude.{ℕ, ◌≡◌, refl, sym, ap, ◌∙◌, true, false, none, some}
use lunch_loxs.Prelude.Maps
use lunch_loxs.Platform.{Platform}
use lunch_loxs.Storage.{Value, bytes, doc_key, get_from_db}
use lunch_loxs.Storage.Rekey.{Records, re_encrypt_all_docs}
use lunch_loxs.World.{World}
use lunch_loxs.Store.{change, run_pending, read_saved}
use lunch_loxs.Store.Jobs.{change-written}
use lunch_loxs.Manager.{update_enc_key}

closed_saved :
    (p : Platform) (b : p.Bytes) (k : p.CryptoKey)
    → p.decrypt k b ≡ none
    → read_saved p (bytes b) k ≡ none
unfolding read_saved
closed_saved p b k e = rw (read_saved, e) refl

module _ {p : Platform} where
  abbrev records_of : World p → Records p
  records_of w = record { db = w.db; next_iv = w.next_iv }

  abbrev with_records : Records p → World p → World p
  with_records s w = record w { db = s.db; next_iv = s.next_iv }

  -- When `reEncryptAllDocs` throws, nothing that follows it is done.
  unfoldable pub rotate_master_key : p.CryptoKey → p.CryptoKey → World p → World p
  unfolding re_encrypt_all_docs update_enc_key
  rotate_master_key old_key new_key w =
      let o = re_encrypt_all_docs p old_key new_key (records_of w) in
      elim o.is_done [
        | true ↦ update_enc_key new_key (with_records o.records w)
        | false ↦ with_records o.records w
      ]

  rotated :
      (old_key new_key : p.CryptoKey) (w : World p)
      → (re_encrypt_all_docs p old_key new_key (records_of w)).is_done ≡ true
      → rotate_master_key old_key new_key w
        ≡ update_enc_key new_key
            (with_records (re_encrypt_all_docs p old_key new_key (records_of w)).records w)
  unfolding rotate_master_key
  rotated old_key new_key w e = rw (rotate_master_key, e) refl

  heap_rotated :
      (old_key new_key : p.CryptoKey) (w : World p)
      → (re_encrypt_all_docs p old_key new_key (records_of w)).is_done ≡ true
      → (rotate_master_key old_key new_key w).heap ≡ w.heap
  unfolding update_enc_key
  heap_rotated old_key new_key w e = ap (λ v. v.heap) (rotated old_key new_key w e)

  -- After a change of the password that succeeds, the manager has the new key; yet a change to a
  -- document that was open under the old key is written in such a way that opening it with the new
  -- key fails, when what the old key encrypts cannot be decrypted with the new one.
  pub rotated_change_lost :
      (old_key new_key : p.CryptoKey) (r : ℕ) (fn : p.Doc → p.Doc) (w : World p)
      → (re_encrypt_all_docs p old_key new_key (records_of w)).is_done ≡ true
      → (w.heap r).enc_key ≡ old_key
      → ((iv : ℕ) (b : p.Bytes) → p.decrypt new_key (p.encrypt iv old_key b) ≡ none)
      → ((rotate_master_key old_key new_key w).manager.enc_key ≡ new_key)
        × (v : Value p.Bytes) × (get_from_db
              (run_pending r (change r fn (rotate_master_key old_key new_key w))).db
              (doc_key (w.heap r).doc_id)
            ≡ some v)
        × (read_saved p v new_key ≡ none)
  unfolding get_from_db read_saved update_enc_key
  rotated_change_lost old_key new_key r fn w done same separate =
      let w' = rotate_master_key old_key new_key w in
      let (flagged, iv, written) = change-written r fn w' in
      let h = heap_rotated old_key new_key w done in
      let id = ap (λ h'. (h' r).doc_id) h in
      let stale = ap (λ h'. (h' r).enc_key) h ∙ same in
      let plaintext = p.save (fn (w'.heap r).doc) in
      let closed =
        ap (λ k. p.decrypt new_key (p.encrypt iv k plaintext)) stale ∙ separate iv plaintext in
      (
        ap (λ v. v.manager.enc_key) (rotated old_key new_key w done),
        bytes (p.encrypt iv (w'.heap r).enc_key plaintext),
        ap (λ d. Maps.get (doc_key d) (run_pending r (change r fn w')).db) (sym id) ∙ written,
        closed_saved p (p.encrypt iv (w'.heap r).enc_key plaintext) new_key closed,
      )
