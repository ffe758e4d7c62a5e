-- ===== src/Session/Books.antt =====
-- frontend/src/connect.ts: which books there are after a list of vaults.
use lunch_loxs.Prelude.{
  Bool, is_some, ◌≡◌, refl, ap, ◌∙◌, false, not, ◌&&◌, ◌||◌, List, [], ◌∷◌, ◌++◌, Text, arith,
  text_eq, text_eq_iff, if◌then◌else◌, Option-cases, inl, inr,
}
use lunch_loxs.Prelude.Sets.{TextSet, has, has-append}
use lunch_loxs.Platform.{Platform}
use lunch_loxs.World.{World}
use lunch_loxs.Session.{
  VaultInfo, Book, Catalogs, Session, ids, decrypt_books, close_book, reconcile, await_keys,
  still_pending, receive_books, rename,
}

module _ {p : Platform} (turn : World p → World p) where
  ids-append : (bs : List (Book p)) (b : Book p) → ids (bs ++ b ∷ []) ≡ ids bs ++ b.vault_id ∷ []
  ids-append [] b = refl
  ids-append (a ∷ bs) b = ap (λ vs. a.vault_id ∷ vs) (ids-append bs b)

  has-ids-append :
      (v : Text) (bs : List (Book p)) (b : Book p)
      → has v (ids (bs ++ b ∷ [])) ≡ (has v (ids bs) || text_eq b.vault_id v)
  unfolding has
  has-ids-append v bs b =
      ap (has v) (ids-append bs b) ∙ ground (arith, has-append v (ids bs) (b.vault_id ∷ []))

  has-reconcile :
      (v : Text) (server pending : TextSet) (old new : List (Book p)) (s : Session p)
      → has v (ids (reconcile turn server pending old new s).books)
        ≡ (has v (ids new) || (has v (ids old) && not (has v server) && has v pending))
  unfolding reconcile has
  has-reconcile v server pending [] new s = ground arith
  has-reconcile v server pending (b ∷ old) new s =
      let known = has b.vault_id server in
      let kept = not known && has b.vault_id pending in
      let new' = if kept then new ++ b ∷ [] else new in
      let s' = if known || kept then s else close_book turn b.vault_id s in
      ground (
        arith,
        has-reconcile v server pending old new' s',
        has-ids-append v new b,
        text_eq_iff b.vault_id v,
      )

  -- A book is there after a list of vaults exactly when the list has its vault with a key that can
  -- be unwrapped, or it was there before and its vault is still to be created.
  pub has-receive_books :
      (c : Catalogs p) (infos : List VaultInfo) (v : Text) (s : Session p)
      → has v (ids (receive_books turn c infos s).books) ≡ (
          has v (ids (decrypt_books c s.books infos))
          || (has v (ids s.books)
              && has v (still_pending turn (turn (await_keys turn infos s.world)))))
  unfolding receive_books
  has-receive_books c infos v s =
      let new = decrypt_books c s.books infos in
      let w = turn (await_keys turn infos s.world) in
      ground (
        arith,
        has-reconcile v (ids new) (still_pending turn w) s.books new
            (record s { world = w; index = [] }),
      )

module _ {p : Platform} where
  pub ids-rename : (v name : Text) (bs : List (Book p)) → ids (rename v name bs) ≡ ids bs
  unfolding rename
  ids-rename v name [] = refl
  ids-rename v name (b ∷ bs) = ground (arith, ids-rename v name bs)

  -- The list has the vault with a key that can be unwrapped.
  unfoldable pub is_unlocked : Catalogs p → Text → List VaultInfo → Bool
  is_unlocked c v [] = false
  is_unlocked c v (vi ∷ infos) =
      (text_eq vi.vault_id v && is_some (c.unwrap vi.encrypted_vault_key vi.sender_public_key))
      || is_unlocked c v infos

  pub has-decrypt_books :
      (c : Catalogs p) (v : Text) (old : List (Book p)) (infos : List VaultInfo)
      → has v (ids (decrypt_books c old infos)) ≡ is_unlocked c v infos
  unfolding decrypt_books has is_unlocked
  has-decrypt_books c v old [] = refl
  has-decrypt_books c v old (vi ∷ infos) =
      elim (Option-cases (c.unwrap vi.encrypted_vault_key vi.sender_public_key)) [
        | inl e ↦ ground (arith, e, has-decrypt_books c v old infos)
        | inr (key, e) ↦ ground (arith, e, has-decrypt_books c v old infos)
      ]
