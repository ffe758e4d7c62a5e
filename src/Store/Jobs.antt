-- ===== src/Store/Jobs.antt =====
-- frontend/src/lib/automerge-store.ts: what the pending writes of a store leave in the database.
use lunch_loxs.Prelude.{
  ℕ, ◌≡◌, refl, ◌∙◌, ap, sym, true, List, [], ◌∷◌, ◌++◌, some, arith, text_eq, text_eq_refl,
}
use lunch_loxs.Prelude.Maps
use lunch_loxs.Prelude.Maps.{get-put}
use lunch_loxs.Platform.{Platform}
use lunch_loxs.Storage.{flag, bytes, dirty_key, doc_key, put_to_db}
use lunch_loxs.World.{Job, persist, persist_and_mark_dirty, World, Store, update_self, update_keeps}
use lunch_loxs.Store.{write_doc, run_job, run_jobs, run_pending, change, enqueue, set_store}

module _ {p : Platform} where
  run_job-heap : (r : ℕ) (j : Job) (w : World p) → (run_job r j w).heap ≡ w.heap
  unfolding run_job
  run_job-heap r persist w = refl
  run_job-heap r persist_and_mark_dirty w = refl

  pub run_jobs-heap : (r : ℕ) (js : List Job) (w : World p) → (run_jobs r js w).heap ≡ w.heap
  unfolding run_jobs
  run_jobs-heap r [] w = refl
  run_jobs-heap r (j ∷ js) w = run_jobs-heap r js (run_job r j w) ∙ run_job-heap r j w

  run_jobs-append :
      (r : ℕ) (js ks : List Job) (w : World p)
      → run_jobs r (js ++ ks) w ≡ run_jobs r ks (run_jobs r js w)
  unfolding run_jobs
  run_jobs-append r [] ks w = refl
  run_jobs-append r (j ∷ js) ks w = run_jobs-append r js ks (run_job r j w)

  module _ (r : ℕ) (js : List Job) (w : World p) where
    last_job-dirty :
        Maps.get (dirty_key (w.heap r).doc_id) (run_jobs r (js ++ persist_and_mark_dirty ∷ []) w).db
        ≡ some (flag true)
    unfolding run_jobs run_job put_to_db
    last_job-dirty =
        let w' = run_jobs r js w in
        rw (run_jobs-append r js (persist_and_mark_dirty ∷ []) w) (
          ground (
            arith,
            run_jobs-heap r js w,
            get-put (dirty_key (w'.heap r).doc_id) (dirty_key (w.heap r).doc_id) (flag true)
                (write_doc r w').db,
            text_eq_refl (dirty_key (w.heap r).doc_id),
          ))

    last_job-doc :
        (iv : ℕ) × (Maps.get
            (doc_key (w.heap r).doc_id)
            (run_jobs r (js ++ persist_and_mark_dirty ∷ []) w).db
          ≡ some (bytes (p.encrypt iv (w.heap r).enc_key (p.save (w.heap r).doc))))
    unfolding run_jobs run_job put_to_db text_eq
    last_job-doc =
        let w' = run_jobs r js w in
        (
          w'.next_iv,
          rw (run_jobs-append r js (persist_and_mark_dirty ∷ []) w) (
              ground (
                arith,
                run_jobs-heap r js w,
                get-put (dirty_key (w'.heap r).doc_id) (doc_key (w.heap r).doc_id) (flag true)
                    (write_doc r w').db,
                get-put (doc_key (w'.heap r).doc_id) (doc_key (w.heap r).doc_id)
                    (bytes (p.encrypt w'.next_iv (w'.heap r).enc_key (p.save (w'.heap r).doc)))
                    w'.db,
                text_eq_refl (w.heap r).doc_id,
              )),
        )

  with_job : Job → Store p → Store p
  with_job j s = record s { pending_write = s.pending_write ++ j ∷ [] }

  heap-enqueue : (r : ℕ) (j : Job) (w : World p) → (enqueue r j w).heap r ≡ with_job j (w.heap r)
  unfolding enqueue with_job
  heap-enqueue r j w = update_self w.heap r (with_job j (w.heap r))

  pub heap-change :
      (r : ℕ) (fn : p.Doc → p.Doc) (w : World p)
      → (change r fn w).heap r ≡ record (w.heap r) {
        doc = fn (w.heap r).doc;
        pending_write = (w.heap r).pending_write ++ persist_and_mark_dirty ∷ [];
      }
  unfolding change with_job
  heap-change r fn w =
      let s = record (w.heap r) { doc = fn (w.heap r).doc } in
      heap-enqueue r persist_and_mark_dirty (set_store r s w)
      ∙ ap (with_job persist_and_mark_dirty) (update_self w.heap r s)

  -- A local change that is written sets the dirty flag of its document, and the document's record
  -- holds the changed document under the store's key.
  pub change-written :
      (r : ℕ) (fn : p.Doc → p.Doc) (w : World p)
      → (Maps.get (dirty_key (w.heap r).doc_id) (run_pending r (change r fn w)).db
          ≡ some (flag true))
        × (iv : ℕ) × (Maps.get (doc_key (w.heap r).doc_id) (run_pending r (change r fn w)).db
            ≡ some (bytes (p.encrypt iv (w.heap r).enc_key (p.save (fn (w.heap r).doc)))))
  unfolding run_pending
  change-written r fn w =
      let w' = change r fn w in
      let e = heap-change r fn w in
      let (iv, doc) = last_job-doc r (w.heap r).pending_write w' in
      (ground (arith, e, last_job-dirty r (w.heap r).pending_write w'), iv, ground (arith, e, doc))

  -- What a written change leaves as it was, and the document in memory.
  pub doc_id-change :
      (r i : ℕ) (fn : p.Doc → p.Doc) (w : World p)
      → ((run_pending r (change r fn w)).heap i).doc_id ≡ (w.heap i).doc_id
  unfolding run_pending change enqueue
  doc_id-change r i fn w =
      let name = λ (s : Store p). s.doc_id in
      let s = record (w.heap r) { doc = fn (w.heap r).doc } in
      let w1 = set_store r s w in
      let w2 = enqueue r persist_and_mark_dirty w1 in
      update_keeps name (run_jobs r (w2.heap r).pending_write w2).heap r i _ (
        sym (ap (λ (h : ℕ → Store p). (h r).doc_id) (run_jobs-heap r (w2.heap r).pending_write w2)))
      ∙ ap (λ (h : ℕ → Store p). (h i).doc_id) (run_jobs-heap r (w2.heap r).pending_write w2)
      ∙ update_keeps name w1.heap r i _ refl
      ∙ update_keeps name w.heap r i _ refl

  pub doc-change :
      (r : ℕ) (fn : p.Doc → p.Doc) (w : World p)
      → ((run_pending r (change r fn w)).heap r).doc ≡ fn (w.heap r).doc
  unfolding run_pending
  doc-change r fn w =
      let w' = change r fn w in
      ap (λ (s : Store p). s.doc)
        (update_self (run_jobs r (w'.heap r).pending_write w').heap r
          (record (w'.heap r) { pending_write = [] }))
      ∙ ap (λ (s : Store p). s.doc) (heap-change r fn w)

  run_job_frame :
      (r : ℕ) (j : Job) (w : World p)
      → ((run_job r j w).queue ≡ w.queue)
        × ((run_job r j w).manager ≡ w.manager)
        × ((run_job r j w).started ≡ w.started)
  unfolding run_job
  run_job_frame r persist w = (refl, refl, refl)
  run_job_frame r persist_and_mark_dirty w = (refl, refl, refl)

  run_jobs_frame :
      (r : ℕ) (js : List Job) (w : World p)
      → ((run_jobs r js w).queue ≡ w.queue)
        × ((run_jobs r js w).manager ≡ w.manager)
        × ((run_jobs r js w).started ≡ w.started)
  unfolding run_jobs
  run_jobs_frame r [] w = (refl, refl, refl)
  run_jobs_frame r (j ∷ js) w =
      let (a, b, c) = run_jobs_frame r js (run_job r j w) in
      let (a', b', c') = run_job_frame r j w in (a ∙ a', b ∙ b', c ∙ c')

  -- Writes concern neither the queue nor the open documents.
  pub run_pending_frame :
      (r : ℕ) (w : World p)
      → ((run_pending r w).queue ≡ w.queue)
        × ((run_pending r w).manager ≡ w.manager)
        × ((run_pending r w).started ≡ w.started)
  unfolding run_pending
  run_pending_frame r w = run_jobs_frame r (w.heap r).pending_write w
