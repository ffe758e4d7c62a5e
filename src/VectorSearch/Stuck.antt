-- ===== src/VectorSearch/Stuck.antt =====
-- frontend/src/lib/vector-search.ts: a loop that is left behind by clearAll.
use lunch_loxs.Prelude.{
  ℕ, ◌≤◌, ◌≡◌, refl, ap, true, false, not, List, [], ◌∷◌, Option, none, some, Text, arith, Bool,
  if◌then◌else◌, keep_if, ◌==◌, Bool-cases, inl, inr,
}
use lunch_loxs.VectorSearch.{
  Priority, normal, Meta, Documents, Content, Embeddable, Run, embedding, Waiting, opening_db,
  loading_all, loading_cached, loading_model, clearing_db, clearing_worker, removing_records,
  InvalidateTimer, State,
}
use lunch_loxs.VectorSearch.Running.{process_queue, enqueue_recipe, go_on}
use lunch_loxs.VectorSearch.Picking.{
  goes_on_rule, continues_rule, settle_message_rule, pick_single, differs,
}
use lunch_loxs.VectorSearch.Calls.{
  enqueue_all, enqueue_books, build_initial_queue, load_model, load_cached, clear_worker, cleared,
  init_vector_search, clear_all, tell_removed, remove_book, invalidate_recipe, take_answer, is_in,
  continue_call, Answer, failed, done, results, answer_run, answer_call, settle_message, pick,
  run_waits, handle_worker_message, fire_invalidations, Event, step, run_events,
}

module _ (id : ℕ) (es : List Embeddable) (n : ℕ) where
  -- The only loop waits for an answer to a message that no running worker has.
  abbrev IsStuck : State → Type 0
  IsStuck s =
      (s.runs ≡ embedding id es ∷ [])
      × (s.processing ≡ true)
      × (is_in id s.asked ≡ false)
      × (id ≤ s.msg_id)
      × (s.indexing_complete ≡ false)
      × (s.total_processed ≡ n)

  process_queue-IsStuck :
      (docs : Option Documents) (s : State) → IsStuck s → IsStuck (process_queue docs s)
  unfolding process_queue
  process_queue-IsStuck docs s h = ground arith

  enqueue_recipe-IsStuck :
      (docs : Option Documents) (v r : Text) (p : Priority) (s : State)
      → IsStuck s
      → IsStuck (enqueue_recipe docs v r p s)
  unfolding enqueue_recipe process_queue
  enqueue_recipe-IsStuck docs v r p s h = ground arith

  enqueue_all-IsStuck :
      (docs : Option Documents) (v : Text) (ms : List Meta) (s : State)
      → IsStuck s
      → IsStuck (enqueue_all docs v ms s)
  unfolding enqueue_all
  enqueue_all-IsStuck docs v [] s h = h
  enqueue_all-IsStuck docs v (m ∷ ms) s h =
      enqueue_all-IsStuck docs v ms (enqueue_recipe docs v m.id normal s)
        (enqueue_recipe-IsStuck docs v m.id normal s h)

  enqueue_books-IsStuck :
      (d : Documents) (vs : List Text) (s : State) → IsStuck s → IsStuck (enqueue_books d vs s)
  unfolding enqueue_books
  enqueue_books-IsStuck d [] s h = h
  enqueue_books-IsStuck d (v ∷ vs) s h =
      grind (arith, enqueue_books-IsStuck d vs, enqueue_all-IsStuck)

  build_initial_queue-IsStuck :
      (docs : Option Documents) (vs : List Text) (s : State)
      → IsStuck s
      → IsStuck (build_initial_queue docs vs s)
  unfolding build_initial_queue
  build_initial_queue-IsStuck none vs s h = h
  build_initial_queue-IsStuck (some d) vs s h = enqueue_books-IsStuck d vs s h

  load_model-IsStuck :
      (docs : Option Documents) (vs : List Text) (s : State)
      → IsStuck s
      → IsStuck (load_model docs vs s)
  unfolding load_model
  load_model-IsStuck docs vs s h = grind (arith, build_initial_queue-IsStuck)

  continue_call-IsStuck :
      (docs : Option Documents) (vs : List Text) (c : Waiting) (s : State)
      → IsStuck s
      → IsStuck (continue_call docs vs c s)
  unfolding continue_call load_cached clear_worker cleared tell_removed
  continue_call-IsStuck docs vs opening_db s h = h
  continue_call-IsStuck docs vs loading_all s h = grind (arith, load_model-IsStuck)
  continue_call-IsStuck docs vs clearing_db s h = ground arith
  continue_call-IsStuck docs vs (removing_records v) s h = ground arith
  continue_call-IsStuck docs vs _ s h = h

  fire_invalidations-IsStuck :
      (docs : Option Documents) (ts : List (Text × InvalidateTimer)) (s : State)
      → IsStuck s
      → IsStuck (fire_invalidations docs ts s)
  unfolding fire_invalidations
  fire_invalidations-IsStuck docs [] s h = h
  fire_invalidations-IsStuck docs ((k, t) ∷ ts) s h =
      grind (arith, fire_invalidations-IsStuck docs ts, enqueue_recipe-IsStuck)

  answer_call-IsStuck :
      (a : Answer) (docs : Option Documents) (vs : List Text) (c : Waiting) (s : State)
      → IsStuck s
      → IsStuck (answer_call a docs vs c s)
  unfolding answer_call cleared
  answer_call-IsStuck failed docs vs (loading_cached id) s h = h
  answer_call-IsStuck _ docs vs (loading_cached id) s h = load_model-IsStuck docs vs s h
  answer_call-IsStuck failed docs vs (clearing_worker id) s h = h
  answer_call-IsStuck _ docs vs (clearing_worker id) s h = ground arith
  answer_call-IsStuck failed docs vs (loading_model id) s h = h
  answer_call-IsStuck _ docs vs (loading_model id) s h =
      process_queue-IsStuck docs (record s { model_ready = true }) h
  answer_call-IsStuck failed docs vs _ s h = h
  answer_call-IsStuck done docs vs _ s h = h
  answer_call-IsStuck (results rs) docs vs _ s h = h

  -- The loop cannot be picked for another answer, and going on by itself it waits again.
  go_on-IsStuck :
      (d : Documents) (o : Option Content) (p : Run → Bool) (s : State) (r : Run) (rs : List Run)
      → IsStuck s
      → pick p s.runs ≡ some (r, rs)
      → IsStuck (go_on d o r (record s { runs = rs }))
  unfolding go_on
  go_on-IsStuck d o p s r rs h e =
      let (er, ers) = pick_single p s.runs (embedding id es) r rs h.0 e in
      rw (er, ers) (refl, h.1, h.2, h.3, h.4, h.5)

  is_in-take_answer :
      (j : ℕ) (ids : List ℕ)
      → is_in id ids ≡ false
      → is_in id (keep_if (λ i. not (i == j)) ids) ≡ false
  is_in-take_answer j [] h = refl
  is_in-take_answer j (i ∷ ids) h = ground (arith, is_in-take_answer j ids)

  answer_run-IsStuck :
      (j : ℕ) (a : Answer) (s : State) (r : Run) (rs : List Run)
      → (j == id) ≡ false
      → IsStuck s
      → pick (run_waits j) s.runs ≡ some (r, rs)
      → IsStuck (answer_run a r (record s { runs = rs }))
  answer_run-IsStuck j a s r rs n h e =
      let missed : pick (run_waits j) (embedding id es ∷ []) ≡ none = ground (arith, n) in
      cc (ap (λ l. pick (run_waits j) l) h.0, missed)

  handle_worker_message-IsStuck :
      (j : ℕ) (a : Answer) (docs : Option Documents) (vs : List Text) (s : State)
      → IsStuck s
      → IsStuck (handle_worker_message j a docs vs s)
  unfolding handle_worker_message
  handle_worker_message-IsStuck j a docs vs s h = elim (Bool-cases (is_in j s.asked)) [
    | inr e ↦ rw e h
    | inl e ↦
        let h' : IsStuck (take_answer j s) =
          (h.0, h.1, is_in-take_answer j s.asked h.2, h.3, h.4, h.5) in
        let other : (j == id) ≡ false = differs j id s.asked e h.2 in
        let settled : IsStuck (settle_message j a docs vs (take_answer j s)) =
          settle_message_rule IsStuck (take_answer j s) j a docs vs
            (λ r rs f. answer_run-IsStuck j a (take_answer j s) r rs other h' f)
            (λ c cs. answer_call-IsStuck a docs vs c (record (take_answer j s) { calls = cs }) h')
            h' in
        rw e (ground (arith, settled, h))
  ]

  step-IsStuck : (e : Event) (s : State) → IsStuck s → IsStuck (step e s)
  unfolding step
  step-IsStuck (Event.tick m) s h = h
  step-IsStuck (Event.timers docs) s h = fire_invalidations-IsStuck docs s.invalidate_timers s h
  step-IsStuck Event.hides s h = ground arith
  step-IsStuck (Event.shows docs) s h = ground (
    arith,
    process_queue-IsStuck docs (record s { paused = if s.listens then false else s.paused }) h,
  )
  step-IsStuck Event.inits s h = unfold init_vector_search in ground arith
  step-IsStuck Event.clears s h =
      unfold clear_all in unfold clear_worker in unfold cleared in ground arith
  step-IsStuck (Event.removes v) s h = unfold remove_book in unfold tell_removed in ground arith
  step-IsStuck (Event.invalidates v r) s h = unfold invalidate_recipe in h
  step-IsStuck (Event.enqueues docs v r p) s h = enqueue_recipe-IsStuck docs v r p s h
  step-IsStuck (Event.goes_on p d o) s h =
      goes_on_rule IsStuck s p d o (λ r rs e. go_on-IsStuck d o p s r rs h e) h
  step-IsStuck (Event.continues p docs vs) s h =
      continues_rule IsStuck s p docs vs
        (λ c cs. continue_call-IsStuck docs vs c (record s { calls = cs }) h) h
  step-IsStuck (Event.answers j a docs vs) s h = handle_worker_message-IsStuck j a docs vs s h

  run_events-IsStuck : (evs : List Event) (s : State) → IsStuck s → IsStuck (run_events evs s)
  unfolding run_events
  run_events-IsStuck [] s h = h
  run_events-IsStuck (e ∷ evs) s h = run_events-IsStuck evs (step e s) (step-IsStuck e s h)

-- When everything is cleared while the loop waits for the worker to embed a batch, the loop waits for
-- ever: whatever happens afterwards, a new start included, `processing` stays set and no recipe is
-- taken from the queue.
pub cleared_stuck :
    (id : ℕ) (es : List Embeddable) (s : State) (evs : List Event)
    → s.runs ≡ embedding id es ∷ []
    → s.processing ≡ true
    → id ≤ s.msg_id
    → ((run_events evs (cleared s)).processing ≡ true)
      × ((run_events evs (cleared s)).runs ≡ embedding id es ∷ [])
      × ((run_events evs (cleared s)).total_processed ≡ s.total_processed)
unfolding cleared
cleared_stuck id es s evs r p i =
    let h =
      run_events-IsStuck id es s.total_processed evs (cleared s) (r, p, refl, i, refl, refl) in
    (h.1, h.0, h.5)
