-- ===== src/Session/Forgotten.antt =====
-- frontend/src/connect.ts: what is left of the unpushed changes when the list of vaults has come.
use lunch_loxs.Prelude.{
  ◌≡◌, refl, ap, ◌∙◌, true, false, not, ◌&&◌, ◌||◌, ◌+◌, List, map, none, some, Text, arith,
}
use lunch_loxs.Prelude.Maps
use lunch_loxs.Prelude.Sets.{TextSet, has}
use lunch_loxs.Platform.{Platform}
use lunch_loxs.World.{World, quiet}
use lunch_loxs.Storage.{dirty_key}
use lunch_loxs.PushQueue.{vault_id}
use lunch_loxs.PushQueue.Vaults.{
  is_orphan, create_pending_vaults, set_pending_vault_ids, on_vaults_changed,
}
use lunch_loxs.Session.Purge.{purge_orphaned_dirty_lem}
use lunch_loxs.Session.Books.{has-receive_books, has-decrypt_books, is_unlocked}
use lunch_loxs.Session.Unchanged.{
  receive_books-HasQueue, load_catalogs-HasQueue, list_members-HasQueue,
  create_pending_vaults-HasQueue, ids-load_catalogs,
}
use lunch_loxs.Session.{
  VaultInfo, Catalogs, Session, ids, await_keys, still_pending, receive_books, load_catalogs,
  tell_queue, list_members, in_world, take_vault_list,
}

-- A document of a vault is an orphan when its vault is not known.
is_orphan_of :
    (d v : Text) (known : TextSet) → vault_id d ≡ some v → is_orphan known d ≡ not (has v known)
unfolding is_orphan
is_orphan_of d v known e = rw (is_orphan, e) refl

module _ {p : Platform} where
  -- What the queue knows of the books decides which documents stay dirty.
  tell_queue_lem :
      (infos : List VaultInfo) (pending : TextSet) (d : Text) (s : Session p)
      → (has d (tell_queue quiet infos pending s).world.queue.dirty_set
          ≡ (has d s.world.queue.dirty_set && not (is_orphan (ids s.books) d)))
        × (has d s.world.queue.dirty_set ≡ true
            → is_orphan (ids s.books) d ≡ true
            → Maps.get (dirty_key d) (tell_queue quiet infos pending s).world.db ≡ none)
  unfolding tell_queue on_vaults_changed set_pending_vault_ids
  tell_queue_lem infos pending d s =
      let w : World p = set_pending_vault_ids pending (on_vaults_changed s.world) in
      let known = map (λ (vi : VaultInfo). vi.vault_id) infos in
      let w' = (create_pending_vaults quiet known w).1 in
      let same = create_pending_vaults-HasQueue w.queue known w refl in
      let (marks, flags) = purge_orphaned_dirty_lem (ids s.books) d w' in
      let dirty = ap (λ q. has d q.dirty_set) same in
      (
        marks ∙ ap (λ b. b && not (is_orphan (ids s.books) d)) dirty,
        λ h o. flags ∙ ground (arith, dirty, h, o),
      )

  -- What the queue is told when a list is taken in full.
  abbrev before_queue : Catalogs p → List VaultInfo → Session p → Session p
  before_queue c infos s =
      let s₁ = receive_books quiet c infos s in
      let s₂ = (load_catalogs quiet c s₁.books s₁).1 in
      in_world (list_members s₂.books) (record s₂ { book_events = s₂.book_events + 1 })

  taken :
      (c : Catalogs p) (infos : List VaultInfo) (s : Session p)
      → (take_vault_list quiet c infos s).0 ≡ true
      → (take_vault_list quiet c infos s).1
        ≡ tell_queue quiet infos
            (still_pending quiet (await_keys quiet infos s.world))
            (before_queue c infos s)
  unfolding take_vault_list
  taken c infos s h = ground (arith, h)

  before_queue_lem :
      (c : Catalogs p) (infos : List VaultInfo) (s : Session p)
      → ((before_queue c infos s).world.queue ≡ s.world.queue)
        × (ids (before_queue c infos s).books ≡ ids (receive_books quiet c infos s).books)
  before_queue_lem c infos s =
      let s₁ = receive_books quiet c infos s in
      let s₂ = (load_catalogs quiet c s₁.books s₁).1 in
      let q = s.world.queue in
      (
        list_members-HasQueue q s₂.books s₂.world
            (load_catalogs-HasQueue q c s₁.books s₁ (receive_books-HasQueue q c infos s refl)),
        ids-load_catalogs c s₁.books s₁,
      )

  -- With nothing in between, when a list of vaults is taken without an error, a dirty document of a
  -- vault stays dirty exactly when the list has the vault with a key that can be unwrapped, or the
  -- vault is among the books and still to be created.
  pub take_vault_list_marks :
      (c : Catalogs p) (infos : List VaultInfo) (d v : Text) (s : Session p)
      → (take_vault_list quiet c infos s).0 ≡ true
      → vault_id d ≡ some v
      → has d (take_vault_list quiet c infos s).1.world.queue.dirty_set ≡ (
          has d s.world.queue.dirty_set
          && (is_unlocked c v infos
              || (has v (ids s.books)
                  && has v (still_pending quiet (await_keys quiet infos s.world)))))
  take_vault_list_marks c infos d v s h e =
      let pending = still_pending quiet (await_keys quiet infos s.world) in
      let s' = before_queue c infos s in
      let (same, books) = before_queue_lem c infos s in
      let (marks, _) = tell_queue_lem infos pending d s' in
      ap (λ t. has d t.world.queue.dirty_set) (taken c infos s h)
      ∙ marks
      ∙ ground (
        arith,
        ap (λ q. has d q.dirty_set) same,
        is_orphan_of d v (ids s'.books) e,
        ap (has v) books,
        has-receive_books quiet c infos v s,
        has-decrypt_books c v s.books infos,
      )

  -- With nothing in between, when a list of vaults is taken without an error, a dirty document of a
  -- vault that the list does not have with a key that can be unwrapped, and which is not still to be
  -- created, is forgotten: its mark and its flag in the database are gone.
  pub take_vault_list_forgets :
      (c : Catalogs p) (infos : List VaultInfo) (d v : Text) (s : Session p)
      → (take_vault_list quiet c infos s).0 ≡ true
      → vault_id d ≡ some v
      → is_unlocked c v infos ≡ false
      → has v (still_pending quiet (await_keys quiet infos s.world)) ≡ false
      → has d s.world.queue.dirty_set ≡ true
      → (has d (take_vault_list quiet c infos s).1.world.queue.dirty_set ≡ false)
        × (Maps.get (dirty_key d) (take_vault_list quiet c infos s).1.world.db ≡ none)
  take_vault_list_forgets c infos d v s h e no_key not_pending dirty =
      let pending = still_pending quiet (await_keys quiet infos s.world) in
      let s' = before_queue c infos s in
      let (same, books) = before_queue_lem c infos s in
      let (_, flags) = tell_queue_lem infos pending d s' in
      let gone = has-decrypt_books c v s.books infos ∙ no_key in
      let unknown : has v (ids s'.books) ≡ false =
        ap (has v) books
        ∙ has-receive_books quiet c infos v s
        ∙ ground (arith, gone, not_pending) in
      (
        take_vault_list_marks c infos d v s h e ∙ ground (arith, no_key, not_pending, dirty),
        ap (λ t. Maps.get (dirty_key d) t.world.db) (taken c infos s h)
            ∙ flags (ap (λ q. has d q.dirty_set) same ∙ dirty)
                (is_orphan_of d v (ids s'.books) e ∙ ap not unknown),
      )
