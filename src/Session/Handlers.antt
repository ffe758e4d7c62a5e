-- ===== src/Session/Handlers.antt =====
-- frontend/src/connect.ts: the other handlers of the client that change books and documents, and
-- frontend/src/sync/vault-helpers.ts. Views and toasts are left out; of `switchBook` only the active
-- book is kept.
use lunch_loxs.Prelude.{
  ℕ, ◌+◌, Bool, false, not, ◌&&◌, ◌||◌, List, [], ◌∷◌, ◌++◌, Option, none, some, Text, codes, take,
  is_empty, is_some, text_eq, if◌then◌else◌,
}
use lunch_loxs.Prelude.Maps
use lunch_loxs.Platform.{Platform}
use lunch_loxs.Storage.{clear_pending_vault}
use lunch_loxs.World.{World, Async, unsubscribe, case_option, ◌>>=◌, ◌>>◌, return, read, run, await}
use lunch_loxs.Store.{change, merge, set_last_seq}
use lunch_loxs.Manager.{get, close}
use lunch_loxs.Client.{send, in_client}
use lunch_loxs.Search.Index.{remove_book_from_index}
use lunch_loxs.PushQueue.Vaults.{forget_pending}
use lunch_loxs.Session.{
  Book, Catalogs, Session, catalog_id, in_world, on_world, ask_vaults, rename, index_recipes,
}

module _ {p : Platform} where
  abbrev pub is_active : Text → Session p → Bool
  is_active v s = elim s.active_book [ none ↦ false | some a ↦ text_eq a v ]

  unfoldable pub without_vault : Text → List (Book p) → List (Book p)
  without_vault v [] = []
  without_vault v (b ∷ bs) =
      if text_eq b.vault_id v then without_vault v bs else b ∷ without_vault v bs

  abbrev pub first_id : List (Book p) → Option Text
  first_id [] = none
  first_id (b ∷ bs) = some b.vault_id

  -- The book leaves the list; if it was active, the first of the others takes its place.
  unfoldable pub drop_book : Text → Bool → Session p → Session p
  unfolding without_vault
  drop_book v was_active s =
      let books = without_vault v s.books in
      record s {
        books = books;
        active_book = if was_active then first_id books else s.active_book;
        book_events = s.book_events + 1;
      }

  -- `onVaultDeleted`
  unfoldable pub on_vault_deleted : Text → Session p → Session p
  unfolding drop_book remove_book_from_index
  on_vault_deleted v s =
      drop_book v (is_active v s) (record s { index = remove_book_from_index v s.index })

  abbrev pub find_book : Text → List (Book p) → Option (Book p)
  find_book v [] = none
  find_book v (b ∷ bs) = if text_eq b.vault_id v then some b else find_book v bs

  -- `book.role = role` for the book of a vault
  unfoldable pub with_role : Text → Text → List (Book p) → List (Book p)
  with_role v role [] = []
  with_role v role (b ∷ bs) =
      if text_eq b.vault_id v then record b { role = role } ∷ bs else b ∷ with_role v role bs

  unfoldable pub set_role : Text → Text → Session p → Session p
  unfolding with_role
  set_role v role s = elim (find_book v s.books) [
    | none ↦ s
    | some b ↦ record s { books = with_role v role s.books; book_events = s.book_events + 1 }
  ]

  -- `onOwnershipReceived`
  unfoldable pub on_ownership_received : Text → Session p → Session p
  unfolding set_role ask_vaults
  on_ownership_received v s = in_world ask_vaults (set_role v (codes "owner") s)

  -- `onRoleChanged`: an empty target is everyone, an empty role changes nothing.
  unfoldable pub on_role_changed : Text → Text → Text → Text → Session p → Session p
  unfolding set_role ask_vaults
  on_role_changed me v target role s = in_world ask_vaults (
      if (text_eq target me || is_empty target) && not (is_empty role)
      then set_role v role s
      else s)

  -- `canEditActiveBook()`
  unfoldable pub can_edit_active_book : Session p → Bool
  can_edit_active_book s = elim s.active_book [
    | none ↦ false
    | some v ↦ elim (find_book v s.books) [
      | none ↦ false
      | some b ↦ text_eq b.role (codes "owner") || text_eq b.role (codes "editor")
    ]
  ]

  -- The document of an open catalog.
  abbrev pub catalog_of : Text → World p → Option (ℕ × p.Doc)
  catalog_of v w = elim (Maps.get (catalog_id v) w.manager.stores) [
    | none ↦ none
    | some r ↦ some (r, (w.heap r).doc)
  ]

  -- `rebuildBookIndex(vaultId)`, but for the queue of the vector search
  unfoldable pub rebuild_book_index : Catalogs p → Text → Session p → Session p
  unfolding remove_book_from_index index_recipes
  rebuild_book_index c v s = elim (find_book v s.books) [
    | none ↦ s
    | some b ↦ elim (catalog_of v s.world) [
      | none ↦ s
      | some (r, doc) ↦ record s {
        index = index_recipes b (c.recipes_of doc) (remove_book_from_index v s.index);
      }
    ]
  ]

  -- `refreshBookNameFromCatalog(docId)` for the catalog of a vault
  unfoldable pub refresh_book_name : Catalogs p → Text → Session p → Session p
  unfolding rename change
  refresh_book_name c v s = elim (find_book v s.books) [
    | none ↦ s
    | some b ↦ elim (catalog_of v s.world) [
      | none ↦ s
      | some (r, doc) ↦
          let name = c.name_of doc in
          if not (is_empty name) && not (text_eq name b.name)
          then record s { books = rename v name s.books }
          else if is_empty name && not (text_eq b.name (take 8 v))
          then in_world (change r (c.with_name b.name)) s
          else s
    ]
  ]

module _ {p : Platform} (turn : World p → World p) where
  -- `onVaultCreated`
  unfoldable pub vault_created_handler : Text → Session p → Session p
  unfolding ask_vaults forget_pending
  vault_created_handler v = on_world (do
    run (λ w. record w { db = clear_pending_vault w.db v })
    await turn
    run (forget_pending v)
    run ask_vaults)

  -- `unsubscribe(docId)`, then `close(docId)`
  unfoldable pub leave : Text → Session p → Session p
  unfolding in_client send close
  leave d s = on_world (close turn d) (in_world (in_client (send (unsubscribe d))) s)

  -- `onVaultRemoved`, with the recipe that is selected
  unfoldable pub on_vault_removed : Text → Option Text → Session p → Session p
  unfolding leave drop_book remove_book_from_index
  on_vault_removed v selected s =
      let was_active = is_active v s in
      let s₁ = record s { index = remove_book_from_index v s.index } in
      let s₂ =
        if was_active
        then case_option selected s₁ (λ recipe. leave (v ++ b'/' ∷ recipe) s₁)
        else s₁ in
      drop_book v was_active (leave (catalog_id v) s₂)

-- `verifyPayload` is a parameter here: the plaintext, and whether the signature is that of the key.
module _ {p : Platform} {SigningKey : Type 0} (turn : World p → World p)
    (verify_payload : p.Bytes → Option SigningKey → p.Bytes × Bool) where
  -- `onRemoteChange`, with the signing keys that are known; a payload that cannot be merged throws.
  unfoldable pub remote_change_handler :
      List (Text × SigningKey) → Text → p.Bytes → ℕ → Option Text → Async p (Unit {0})
  unfolding get merge set_last_seq
  remote_change_handler keys d snapshot seq sender = do
    store ← read (get d)
    case_option store (return tt) λ r. do
      let key = case_option sender none (λ user. Maps.get user keys)
      let (plaintext, verified) = verify_payload snapshot key
      await turn
      if not verified && is_some key then set_last_seq turn r seq else (do
        merged ← read (merge r plaintext)
        case_option merged (return tt) (λ w. do run (λ _. w); set_last_seq turn r seq))
