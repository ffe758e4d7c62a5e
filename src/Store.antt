-- ===== src/Store.antt =====
-- frontend/src/lib/automerge-store.ts, class AutomergeStore. A store object is a reference `r` into
-- the heap. Change listeners are the user interface's and are left out; a pending write runs in one
-- piece; a transaction that fails is not modelled.
pub mod Jobs
pub mod Reopening
use lunch_loxs.Prelude.{
  ℕ, suc, ◌≡◌, Bool, true, false, List, [], ◌∷◌, ◌++◌, Option, none, some, Text, if◌then◌else◌,
}
use lunch_loxs.Platform.{Platform}
use lunch_loxs.Storage.{
  Value, bytes, flag, number, texts, Database, doc_key, dirty_key, push_heads_key, seq_key,
  get_from_db, put_to_db, delete_to_db,
}
use lunch_loxs.World.{
  Job, persist, persist_and_mark_dirty, Store, World, Async, case_option, ◌>>=◌, ◌>>◌, return, read,
  run, await, update,
}

module _ {p : Platform} where
  abbrev pub set_store : ℕ → Store p → World p → World p
  set_store r s w = record w { heap = update w.heap r s }

  -- `putToDB(this.db, k, v)` and `deleteToDB(this.db, k)`
  abbrev pub put : Text → Value p.Bytes → World p → World p
  put k v w = record w { db = put_to_db w.db k v }

  abbrev pub delete : Text → World p → World p
  delete k w = record w { db = delete_to_db w.db k }

  -- `enqueuePersist` and `enqueuePersistAndMarkDirty`
  unfoldable pub enqueue : ℕ → Job → World p → World p
  enqueue r job w =
      let s = w.heap r in set_store r (record s { pending_write = s.pending_write ++ job ∷ [] }) w

  -- The write of the encrypted document, common to `persist` and `persistAndMarkDirty`.
  unfoldable pub write_doc : ℕ → World p → World p
  write_doc r w =
      let s = w.heap r in
      record w {
        next_iv = suc w.next_iv;
        db =
            put_to_db w.db (doc_key s.doc_id)
              (bytes (p.encrypt w.next_iv s.enc_key (p.save s.doc)));
      }

  unfoldable pub run_job : ℕ → Job → World p → World p
  unfolding write_doc
  run_job r persist w = write_doc r w
  run_job r persist_and_mark_dirty w = put (dirty_key (w.heap r).doc_id) (flag true) (write_doc r w)

  unfoldable pub run_jobs : ℕ → List Job → World p → World p
  run_jobs r [] w = w
  run_jobs r (job ∷ jobs) w = run_jobs r jobs (run_job r job w)

  -- All pending writes of the store, in order.
  unfoldable pub run_pending : ℕ → World p → World p
  unfolding run_jobs
  run_pending r w =
      let s = w.heap r in
      set_store r (record s { pending_write = [] }) (run_jobs r s.pending_write w)

  -- `change(fn)`, without the listeners
  unfoldable pub change : ℕ → (p.Doc → p.Doc) → World p → World p
  unfolding enqueue
  change r fn w =
      let s = w.heap r in
      enqueue r persist_and_mark_dirty (set_store r (record s { doc = fn s.doc }) w)

  unfoldable pub ensure_initialized : ℕ → World p → Bool × World p
  unfolding enqueue
  ensure_initialized r w =
      let s = w.heap r in
      elim s.init_fn [
        | none ↦ (false, w)
        | some fn ↦ elim (p.all_changes s.doc) [
          | c ∷ cs ↦ (false, set_store r (record s { init_fn = none }) w)
          | [] ↦ (
            true,
            enqueue r persist_and_mark_dirty
                (set_store r (record s { doc = fn s.doc; init_fn = none }) w),
          )
        ]
      ]

  unfoldable pub apply_changes : ℕ → List p.Bytes → World p → World p
  unfolding enqueue
  apply_changes r [] w = w
  apply_changes r (c ∷ cs) w =
      let s = w.heap r in
      enqueue r persist (set_store r (record s { doc = p.apply_changes s.doc (c ∷ cs) }) w)

  unfoldable pub apply_change : ℕ → p.Bytes → World p → World p
  unfolding enqueue
  apply_change r c w =
      let s = w.heap r in
      enqueue r persist (set_store r (record s { doc = p.apply_changes s.doc (c ∷ []) }) w)

  -- `merge(otherDoc)`; `none`: `Automerge.load` throws, and nothing has changed
  unfoldable pub merge : ℕ → p.Bytes → World p → Option (World p)
  unfolding enqueue
  merge r other w = elim (p.load other) [
    | none ↦ none
    | some d ↦
        let s = w.heap r in
        some (enqueue r persist (set_store r (record s { doc = p.merge s.doc d }) w))
  ]

  -- `encrypt(Automerge.save(this.doc), this.encKey)`
  unfoldable pub encrypt_doc : ℕ → World p → p.Bytes × World p
  encrypt_doc r w =
      let s = w.heap r in
      (p.encrypt w.next_iv s.enc_key (p.save s.doc), record w { next_iv = suc w.next_iv })

  -- `new AutomergeStore(doc, db, docId, encKey)`
  unfoldable pub allocate : Store p → World p → ℕ × World p
  allocate s w =
      (w.next_ref, record w { heap = update w.heap w.next_ref s; next_ref = suc w.next_ref })

module _ (p : Platform) where
  -- What `open` makes of a saved record; `none`: wrong passphrase.
  unfoldable pub read_saved : Value p.Bytes → p.CryptoKey → Option p.Doc
  read_saved (bytes b) key = elim (p.decrypt key b) [
    | none ↦ none
    | some plaintext ↦ p.load plaintext
  ]
  read_saved _ key = none

module _ {p : Platform} (turn : World p → World p) where
  unfoldable pub wait_for_write : ℕ → Async p (Unit {0})
  unfolding run_pending
  wait_for_write r = do await turn; run (run_pending r)

  -- `persist()`, where it is awaited directly
  unfoldable pub persist_now : ℕ → Async p (Unit {0})
  unfolding encrypt_doc
  persist_now r = do
    encrypted ← encrypt_doc r
    await turn
    run (λ w. put (doc_key (w.heap r).doc_id) (bytes encrypted) w)
    await turn

  unfoldable pub created : Text → p.CryptoKey → Option (p.Doc → p.Doc) → p.Doc → Async p (Option ℕ)
  unfolding allocate persist_now
  created d key init_fn doc = do
    r ←
        allocate
          (record { doc = doc; doc_id = d; enc_key = key; init_fn = init_fn; pending_write = [] })
    persist_now r
    return (some r)

  -- `AutomergeStore.open`; `none`: it throws
  unfoldable pub open_store : Text → p.CryptoKey → (p.Doc → p.Doc) → Async p (Option ℕ)
  unfolding get_from_db read_saved created
  open_store d key init_fn = do
    await turn
    saved ← read (λ w. get_from_db w.db (doc_key d))
    case_option saved (created d key (some init_fn) p.init)
        λ v. do await turn; case_option (read_saved p v key) (return none) (created d key none)

  unfoldable pub mark_dirty : ℕ → Async p (Unit {0})
  mark_dirty r = do run (λ w. put (dirty_key (w.heap r).doc_id) (flag true) w); await turn

  unfoldable pub clear_dirty : ℕ → Async p (Unit {0})
  clear_dirty r = do
    run (λ w. delete (dirty_key (w.heap r).doc_id) w)
    await turn
    run (λ w. delete (push_heads_key (w.heap r).doc_id) w)
    await turn

  unfoldable pub set_last_seq : ℕ → ℕ → Async p (Unit {0})
  set_last_seq r seq = do run (λ w. put (seq_key (w.heap r).doc_id) (number seq) w); await turn

  unfoldable pub set_push_heads : ℕ → List Text → Async p (Unit {0})
  set_push_heads r heads = do
    run (λ w. put (push_heads_key (w.heap r).doc_id) (texts heads) w)
    await turn

  unfoldable pub get_push_heads : ℕ → Async p (Option (List Text))
  unfolding get_from_db
  get_push_heads r = do
    await turn
    val ← read (λ w. get_from_db w.db (push_heads_key (w.heap r).doc_id))
    return (elim val [ some (texts heads) ↦ some heads | _ ↦ none ])

  unfoldable pub get_last_seq : ℕ → Async p ℕ
  unfolding get_from_db
  get_last_seq r = do
    await turn
    val ← read (λ w. get_from_db w.db (seq_key (w.heap r).doc_id))
    return (elim val [ some (number seq) ↦ seq | _ ↦ 0 ])

  unfoldable pub is_dirty : ℕ → Async p Bool
  unfolding get_from_db
  is_dirty r = do
    await turn
    val ← read (λ w. get_from_db w.db (dirty_key (w.heap r).doc_id))
    return (elim val [ some (flag b) ↦ b | _ ↦ false ])

  unfoldable pub clear_store : ℕ → (p.Doc → p.Doc) → Async p (Unit {0})
  unfolding set_last_seq clear_dirty persist_now
  clear_store r init_fn = do
    run (λ w. set_store r (record (w.heap r) { doc = init_fn p.init }) w)
    set_last_seq r 0
    clear_dirty r
    persist_now r
