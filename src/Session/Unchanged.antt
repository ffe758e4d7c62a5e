-- ===== src/Session/Unchanged.antt =====
-- frontend/src/connect.ts: what the handler of the list of vaults leaves to the push queue, and to the
-- list of books.
use lunch_loxs.Prelude.{
  ◌≡◌, refl, ◌∙◌, not, ◌&&◌, ◌||◌, List, [], ◌∷◌, ◌++◌, Option, none, some, Text, arith, if_rule,
  if◌then◌else◌, Bool-cases, Option-cases, inl, inr, ℕ,
}
use lunch_loxs.Prelude.Sets.{TextSet, has, add}
use lunch_loxs.Platform.{Platform}
use lunch_loxs.World.{
  World, Queue, Client, Async, unsubscribe, Job, persist, persist_and_mark_dirty, quiet,
}
use lunch_loxs.Storage.{get_all_pending_vaults, PendingVault}
use lunch_loxs.Store.{
  run_job, run_jobs, run_pending, wait_for_write, change, get_last_seq, open_store, enqueue,
}
use lunch_loxs.Manager.{close, open_doc, opened, get}
use lunch_loxs.PushQueue.Vaults.{create_one, create_pending, create_pending_vaults}
use lunch_loxs.Client.{in_client, send}
use lunch_loxs.Session.Books.{ids-rename}
use lunch_loxs.Session.{
  VaultInfo, Book, Catalogs, Session, ids, decrypt_books, close_book, reconcile, await_keys,
  still_pending, receive_books, use_catalog, load_catalogs, list_members, member_request,
  catalog_id,
}

module _ {p : Platform} (q : Queue p) where
  abbrev pub HasQueue : World p → Type 0
  HasQueue w = w.queue ≡ q

  run_jobs-HasQueue :
      (r : ℕ) (jobs : List Job) (w : World p) → HasQueue w → HasQueue (run_jobs r jobs w)
  unfolding run_jobs run_job
  run_jobs-HasQueue r [] w h = h
  run_jobs-HasQueue r (persist ∷ jobs) w h = run_jobs-HasQueue r jobs (run_job r persist w) h
  run_jobs-HasQueue r (persist_and_mark_dirty ∷ jobs) w h =
      run_jobs-HasQueue r jobs (run_job r persist_and_mark_dirty w) h

  run_pending-HasQueue : (r : ℕ) (w : World p) → HasQueue w → HasQueue (run_pending r w)
  unfolding run_pending
  run_pending-HasQueue r w h = run_jobs-HasQueue r (w.heap r).pending_write w h

  in_client-HasQueue :
      (f : Client p → Client p) (w : World p) → HasQueue w → HasQueue (in_client f w)
  unfolding in_client
  in_client-HasQueue f w h = ground (arith, h)

  close-HasQueue : (d : Text) (w : World p) → HasQueue w → HasQueue (close quiet d w).1
  unfolding close wait_for_write
  close-HasQueue d w h = elim (Option-cases (get d w)) [
    | inl e ↦ rw (close, e) h
    | inr (r, e) ↦ rw (close, e) (run_pending-HasQueue r w h)
  ]

  open_store-HasQueue :
      (d : Text) (k : p.CryptoKey) (f : p.Doc → p.Doc) (w : World p)
      → HasQueue w
      → HasQueue (open_store quiet d k f w).1
  unfolding open_store
  open_store-HasQueue d k f w h = ground (arith, h)

  opened-HasQueue : (d : Text) (r : Option ℕ) (w : World p) → HasQueue w → HasQueue (opened d r w)
  unfolding opened
  opened-HasQueue d none w h = h
  opened-HasQueue d (some r) w h = h

  open_doc-HasQueue :
      (d : Text) (f : p.Doc → p.Doc) (w : World p) → HasQueue w → HasQueue (open_doc quiet d f w).1
  unfolding open_doc
  open_doc-HasQueue d f w h = elim (Option-cases (get d w)) [
    | inr (r, e) ↦ unfold get in rw (open_doc, e) h
    | inl e ↦
        let w' : World p = record w {
          manager = record (w.manager) { opening = add d w.manager.opening };
        } in
        let (r, w'') = open_store quiet d w.manager.enc_key f w' in
        elim (Bool-cases (has d w.manager.opening)) [
          | inl o ↦ rw (open_doc, e, o) h
          | inr o ↦
              rw (open_doc, e, o)
                (opened-HasQueue d r w'' (open_store-HasQueue d w.manager.enc_key f w' h))
        ]
  ]

  use_catalog-HasQueue :
      (c : Catalogs p) (b : Book p) (r : ℕ) (s : Session p)
      → HasQueue s.world
      → HasQueue (use_catalog quiet c b r s).world
  unfolding use_catalog change get_last_seq enqueue
  use_catalog-HasQueue c b r s h = ground (arith, h)

  pub load_catalogs-HasQueue :
      (c : Catalogs p) (bs : List (Book p)) (s : Session p)
      → HasQueue s.world
      → HasQueue (load_catalogs quiet c bs s).1.world
  unfolding load_catalogs
  load_catalogs-HasQueue c [] s h = h
  load_catalogs-HasQueue c (b ∷ bs) s h =
      elim (Option-cases
        (open_doc quiet (catalog_id b.vault_id) (c.new_catalog b.name) s.world).0) [
          | inl e ↦
              rw (load_catalogs, e)
                (open_doc-HasQueue (catalog_id b.vault_id) (c.new_catalog b.name) s.world h)
          | inr (r, e) ↦
              let w = (open_doc quiet (catalog_id b.vault_id) (c.new_catalog b.name) s.world).1 in
              let opened =
                open_doc-HasQueue (catalog_id b.vault_id) (c.new_catalog b.name) s.world h in
              rw (load_catalogs, e)
                (load_catalogs-HasQueue c bs (use_catalog quiet c b r (record s { world = w }))
                  (use_catalog-HasQueue c b r (record s { world = w }) opened))
        ]

  close_book-HasQueue :
      (v : Text) (s : Session p) → HasQueue s.world → HasQueue (close_book quiet v s).world
  unfolding close_book
  close_book-HasQueue v s h =
      close-HasQueue (catalog_id v) (in_client (send (unsubscribe (catalog_id v))) s.world)
        (in_client-HasQueue (send (unsubscribe (catalog_id v))) s.world h)

  reconcile-HasQueue :
      (server pending : TextSet) (old new : List (Book p)) (s : Session p)
      → HasQueue s.world
      → HasQueue (reconcile quiet server pending old new s).world
  unfolding reconcile
  reconcile-HasQueue server pending [] new s h = h
  reconcile-HasQueue server pending (b ∷ old) new s h =
      let known = has b.vault_id server in
      let kept = not known && has b.vault_id pending in
      reconcile-HasQueue server pending old (if kept then new ++ b ∷ [] else new)
        (if known || kept then s else close_book quiet b.vault_id s)
        (if_rule (λ (t : Session p). HasQueue t.world) (known || kept) h
          (close_book-HasQueue b.vault_id s h))

  await_keys-HasQueue :
      (infos : List VaultInfo) (w : World p) → HasQueue w → HasQueue (await_keys quiet infos w)
  unfolding await_keys
  await_keys-HasQueue [] w h = h
  await_keys-HasQueue (vi ∷ infos) w h = await_keys-HasQueue infos w h

  pub receive_books-HasQueue :
      (c : Catalogs p) (infos : List VaultInfo) (s : Session p)
      → HasQueue s.world
      → HasQueue (receive_books quiet c infos s).world
  unfolding receive_books
  receive_books-HasQueue c infos s h =
      let new = decrypt_books c s.books infos in
      let w = await_keys quiet infos s.world in
      reconcile-HasQueue (ids new) (still_pending quiet w) s.books new
        (record s { world = w; index = [] }) (await_keys-HasQueue infos s.world h)

  pub list_members-HasQueue :
      (bs : List (Book p)) (w : World p) → HasQueue w → HasQueue (list_members bs w)
  unfolding list_members
  list_members-HasQueue [] w h = h
  list_members-HasQueue (b ∷ bs) w h =
      list_members-HasQueue bs (in_client (send (member_request b)) w)
        (in_client-HasQueue (send (member_request b)) w h)

  create_one-HasQueue :
      (known : TextSet) (pv : PendingVault) (w : World p)
      → HasQueue w
      → HasQueue (create_one quiet known pv w).1
  unfolding create_one in_client
  create_one-HasQueue known pv w h = ground (arith, h)

  create_pending-HasQueue :
      (known : TextSet) (pvs : List PendingVault) (w : World p)
      → HasQueue w
      → HasQueue (create_pending quiet known pvs w).1
  unfolding create_pending
  create_pending-HasQueue known [] w h = h
  create_pending-HasQueue known (pv ∷ pvs) w h =
      let (stop, w') = create_one quiet known pv w in
      if_rule (λ (m : Async p (Unit {0})). HasQueue (m w').1) stop
        (create_one-HasQueue known pv w h)
        (create_pending-HasQueue known pvs w' (create_one-HasQueue known pv w h))

  pub create_pending_vaults-HasQueue :
      (known : TextSet) (w : World p)
      → HasQueue w
      → HasQueue (create_pending_vaults quiet known w).1
  unfolding create_pending_vaults
  create_pending_vaults-HasQueue known w h =
      create_pending-HasQueue known (get_all_pending_vaults w.db) w h

module _ {p : Platform} where
  ids-use_catalog :
      (c : Catalogs p) (b : Book p) (r : ℕ) (s : Session p)
      → ids (use_catalog quiet c b r s).books ≡ ids s.books
  unfolding use_catalog
  ids-use_catalog c b r s =
      let doc = (((get_last_seq quiet r s.world).1).heap r).doc in
      ground (arith, ids-rename b.vault_id (c.name_of doc) s.books)

  pub ids-load_catalogs :
      (c : Catalogs p) (bs : List (Book p)) (s : Session p)
      → ids (load_catalogs quiet c bs s).1.books ≡ ids s.books
  unfolding load_catalogs
  ids-load_catalogs c [] s = refl
  ids-load_catalogs c (b ∷ bs) s =
      let (r, w) = open_doc quiet (catalog_id b.vault_id) (c.new_catalog b.name) s.world in
      elim (Option-cases r) [
        | inl e ↦ rw (load_catalogs, e) refl
        | inr (r', e) ↦
            let s' = record s { world = w } in
            rw (load_catalogs, e)
              (ids-load_catalogs c bs (use_catalog quiet c b r' s') ∙ ids-use_catalog c b r' s')
      ]
