-- ===== src/Session.antt =====
-- frontend/src/connect.ts: the books of a session and the handler of the list of vaults, over the
-- documents, the push queue and the client of World. Other tasks may change the world at an
-- `await`; the list of books changes only through these handlers.
pub mod Handlers
pub mod Books
pub mod Purge
pub mod Unchanged
pub mod Forgotten
pub mod Remote
use lunch_loxs.Prelude.{
  ℕ, ◌+◌, Bool, true, false, not, ◌&&◌, ◌||◌, List, [], ◌∷◌, ◌++◌, map, Option, none, some, Text,
  codes, take, is_empty, is_some, text_eq, if◌then◌else◌,
}
use lunch_loxs.Prelude.Sets.{TextSet, has}
use lunch_loxs.Platform.{Platform}
use lunch_loxs.Storage.{get_all_pending_vaults}
use lunch_loxs.World.{
  World, Outgoing, unsubscribe, subscribe, request, Async, ◌>>=◌, ◌>>◌, return, run, await,
}
use lunch_loxs.Store.{change, get_last_seq}
use lunch_loxs.Manager.{is_open, open_doc, close}
use lunch_loxs.Client.{send, in_client}
use lunch_loxs.Search.Index.{Index, SearchEntry, index_recipe, remove_book_from_index}
use lunch_loxs.PushQueue.Vaults.{
  on_vaults_changed, set_pending_vault_ids, create_pending_vaults, purge_orphaned_dirty,
}
use lunch_loxs.PushQueue.Flush.{flush_all_dirty}

pub record VaultInfo : Type 0 where
  pub vault_id : Text
  pub encrypted_vault_key : Text
  pub sender_public_key : Text
  pub role : Text

pub record CatalogEntry : Type 0 where
  pub id : Text
  pub title : Text
  pub tags : List Text

pub record Book (p : Platform) : Type 0 where
  pub vault_id : Text
  pub name : Text
  pub role : Text
  pub enc_key : p.CryptoKey

-- What a document says as the catalog of a book; a name that is missing is empty. `unwrap` is
-- `decryptBookKeyFromUser` and `importBookKey` with the identity key, of a vault's encrypted key and
-- its sender's public key: `none` where they throw.
pub record Catalogs (p : Platform) : Type 0 where
  pub name_of : p.Doc → Text
  pub recipes_of : p.Doc → List CatalogEntry
  pub with_name : Text → p.Doc → p.Doc
  pub new_catalog : Text → p.Doc → p.Doc
  pub unwrap : Text → Text → Option p.CryptoKey

pub record Session (p : Platform) : Type 0 where
  pub world : World p
  -- whether the identity key is there
  pub has_identity : Bool
  pub books : List (Book p)
  pub index : Index
  pub active_book : Option Text
  -- when the list of vaults is asked for again
  pub refreshes : List ℕ
  -- how often "books-change" was emitted
  pub book_events : ℕ

abbrev pub catalog_id : Text → Text
catalog_id v = v ++ codes "/catalog"

module _ {p : Platform} where
  abbrev pub ids : List (Book p) → List Text
  ids [] = []
  ids (b ∷ bs) = b.vault_id ∷ ids bs

  abbrev pub in_world : (World p → World p) → Session p → Session p
  in_world f s = record s { world = f s.world }

  abbrev pub on_world : Async p (Unit {0}) → Session p → Session p
  on_world f s = record s { world = (f s.world).1 }

  -- `existingBook?.name ?? vi.vaultId.slice(0, 8)`
  unfoldable pub known_name : List (Book p) → Text → Text
  known_name [] v = take 8 v
  known_name (b ∷ bs) v = if text_eq b.vault_id v then b.name else known_name bs v

  -- `book.name = name` for the book of a vault
  unfoldable pub rename : Text → Text → List (Book p) → List (Book p)
  rename v name [] = []
  rename v name (b ∷ bs) =
      (if text_eq b.vault_id v then record b { name = name } else b) ∷ rename v name bs

  -- `client.listVaults()`
  unfoldable pub ask_vaults : World p → World p
  unfolding in_client send
  ask_vaults = in_client (send (request (codes "list_vaults") []))

  abbrev pub member_request : Book p → Outgoing p.Bytes
  member_request b = request (codes "list_vault_members") ((codes "vault_id", b.vault_id) ∷ [])

  unfoldable pub list_members : List (Book p) → World p → World p
  unfolding in_client send
  list_members [] w = w
  list_members (b ∷ bs) w = list_members bs (in_client (send (member_request b)) w)

  unfoldable pub index_recipes : Book p → List CatalogEntry → Index → Index
  unfolding index_recipe
  index_recipes b [] index = index
  index_recipes b (r ∷ rs) index = index_recipes b rs (
      index_recipe
        (record {
          recipe_id = r.id;
          vault_id = b.vault_id;
          book_name = b.name;
          title = r.title;
          tags = r.tags;
        })
        index)

module _ {p : Platform} (c : Catalogs p) where
  -- The books whose key can be unwrapped, in the order of the list.
  unfoldable pub decrypt_books : List (Book p) → List VaultInfo → List (Book p)
  unfolding known_name
  decrypt_books old [] = []
  decrypt_books old (vi ∷ infos) =
      let rest = decrypt_books old infos in
      elim (c.unwrap vi.encrypted_vault_key vi.sender_public_key) [
        | none ↦ rest
        | some key ↦
            record {
              vault_id = vi.vault_id;
              name = known_name old vi.vault_id;
              role = vi.role;
              enc_key = key;
            }
            ∷ rest
      ]

module _ {p : Platform} (turn : World p → World p) where
  -- Each vault's key is awaited.
  unfoldable pub await_keys : List VaultInfo → World p → World p
  await_keys [] w = w
  await_keys (vi ∷ infos) w = await_keys infos (turn w)

  -- A book that the server no longer lists.
  unfoldable pub close_book : Text → Session p → Session p
  unfolding in_client send close remove_book_from_index
  close_book v s =
      let s' =
        on_world (close turn (catalog_id v))
          (in_world (in_client (send (unsubscribe (catalog_id v)))) s) in
      record s' { index = remove_book_from_index v s'.index }

  -- The loop over the old books: `new` grows by those that are pending.
  unfoldable pub reconcile :
      TextSet → TextSet → List (Book p) → List (Book p) → Session p → Session p
  unfolding close_book
  reconcile server pending [] new s = record s { books = new }
  reconcile server pending (b ∷ old) new s =
      let known = has b.vault_id server in
      let kept = not known && has b.vault_id pending in
      reconcile server pending old (if kept then new ++ b ∷ [] else new)
        (if known || kept then s else close_book b.vault_id s)

  abbrev pub still_pending : World p → TextSet
  still_pending w = map (λ pv. pv.vault_id) (get_all_pending_vaults w.db)

  -- `onVaultList` up to `setBooks`
  unfoldable pub receive_books : Catalogs p → List VaultInfo → Session p → Session p
  unfolding await_keys decrypt_books reconcile
  receive_books c infos s =
      let new = decrypt_books c s.books infos in
      let w = turn (await_keys infos s.world) in
      reconcile (ids new) (still_pending w) s.books new (record s { world = w; index = [] })

  -- The catalog of a book, once it is open as the store `r`.
  unfoldable pub use_catalog : Catalogs p → Book p → ℕ → Session p → Session p
  unfolding in_client send get_last_seq rename change index_recipes
  use_catalog c b r s =
      let (seq, w) = get_last_seq turn r s.world in
      let w' = in_client (send (subscribe (catalog_id b.vault_id) seq)) w in
      let doc = (w'.heap r).doc in
      let name = c.name_of doc in
      let better =
        not (is_empty name)
        && not (text_eq name b.name)
        && not (text_eq name (take 8 b.vault_id)) in
      let lost =
        is_empty name
        && not (is_empty (c.recipes_of doc))
        && not (text_eq b.name (take 8 b.vault_id)) in
      let b' = if better then record b { name = name } else b in
      record s {
        world = if lost then change r (c.with_name b.name) w' else w';
        books = if better then rename b.vault_id name s.books else s.books;
        index = index_recipes b' (c.recipes_of doc) s.index;
      }

  -- The loop over the books; `false`: a catalog could not be opened, and the handler fails there.
  unfoldable pub load_catalogs : Catalogs p → List (Book p) → Session p → Bool × Session p
  unfolding open_doc use_catalog
  load_catalogs c [] s = (true, s)
  load_catalogs c (b ∷ bs) s =
      let (r, w) = open_doc turn (catalog_id b.vault_id) (c.new_catalog b.name) s.world in
      let opened = record s { world = w } in
      elim r [ none ↦ (false, opened) | some r' ↦ load_catalogs c bs (use_catalog c b r' opened) ]

  -- What the push queue is told, up to its flush.
  unfoldable pub tell_queue : List VaultInfo → TextSet → Session p → Session p
  unfolding on_vaults_changed set_pending_vault_ids create_pending_vaults purge_orphaned_dirty
  tell_queue infos pending s =
      let s₁ = in_world (λ w. set_pending_vault_ids pending (on_vaults_changed w)) s in
      let s₂ = on_world (create_pending_vaults turn (map (λ vi. vi.vault_id) infos)) s₁ in
      let s₃ = record s₂ {
        refreshes =
            if is_empty pending then s₂.refreshes else s₂.refreshes ++ (s₂.world.now + 3000) ∷ [];
      } in
      on_world (purge_orphaned_dirty turn (ids s₃.books)) s₃

  -- `onVaultList` up to the flush; `false`: it failed.
  unfoldable pub take_vault_list : Catalogs p → List VaultInfo → Session p → Bool × Session p
  unfolding receive_books load_catalogs tell_queue list_members
  take_vault_list c infos s =
      let pending = still_pending (turn (await_keys infos s.world)) in
      let s₁ = receive_books c infos s in
      let (done, s₂) = load_catalogs c s₁.books s₁ in
      if not s.has_identity
      then (false, s)
      else if done
      then (
        true,
        tell_queue infos pending
            (in_world (list_members s₂.books) (record s₂ { book_events = s₂.book_events + 1 })),
      )
      else (false, s₂)

  -- `onVaultList`, but for the attachments, the local cache and the vector search
  unfoldable pub on_vault_list : Catalogs p → List VaultInfo → Session p → Session p
  unfolding take_vault_list flush_all_dirty
  on_vault_list c infos s =
      let (done, s') = take_vault_list c infos s in
      if done then on_world (flush_all_dirty turn) s' else s'
