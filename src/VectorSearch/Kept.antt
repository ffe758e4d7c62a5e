-- ===== src/VectorSearch/Kept.antt =====
-- frontend/src/lib/vector-search.ts: every event leaves the queue, its set of keys and the totals in
-- step.
use lunch_loxs.Prelude.{
  ℕ, true, false, ◌&&◌, List, [], ◌∷◌, ◌++◌, Option, none, some, Text, arith, is_empty,
  if◌then◌else◌, leb, if_rule, codes, Option-cases, inl, inr,
}
use lunch_loxs.Prelude.Maps
use lunch_loxs.VectorSearch.{
  normal, Item, Meta, Documents, Content, Embeddable, Run, opening, extracted, hashing, embedding,
  storing, yielding, Waiting, opening_db, loading_all, loading_cached, loading_model, clearing_db,
  clearing_worker, removing_records, InvalidateTimer, State,
}
use lunch_loxs.VectorSearch.Tracked.{IsTracked, empty-IsInStep}
use lunch_loxs.VectorSearch.Running.{enqueue_recipe, store_next, look_up_hash, go_on}
use lunch_loxs.VectorSearch.Picking.{goes_on_rule, continues_rule, settle_message_rule}
use lunch_loxs.VectorSearch.Calls.{
  enqueue_all, enqueue_books, build_initial_queue, load_model, load_cached, clear_worker, cleared,
  is_in, init_vector_search, clear_all, tell_removed, remove_book, invalidate_recipe, take_answer,
  continue_call, Answer, failed, done, results, answer_run, answer_call, handle_worker_message,
  fire_invalidations, Event, step, run_events,
}
use lunch_loxs.VectorSearch.Loop.{
  next_item-IsTracked, loop-IsTracked, process_queue-IsTracked, enqueue_recipe-IsTracked,
}

enqueue_all-IsTracked :
    (docs : Option Documents) (v : Text) (ms : List Meta) (s : State)
    → IsTracked s
    → IsTracked (enqueue_all docs v ms s)
unfolding enqueue_all
enqueue_all-IsTracked docs v [] s h = h
enqueue_all-IsTracked docs v (m ∷ ms) s h =
    enqueue_all-IsTracked docs v ms (enqueue_recipe docs v m.id normal s)
      (enqueue_recipe-IsTracked docs v m.id normal s h)

enqueue_books-IsTracked :
    (d : Documents) (vs : List Text) (s : State) → IsTracked s → IsTracked (enqueue_books d vs s)
unfolding enqueue_books
enqueue_books-IsTracked d [] s h = h
enqueue_books-IsTracked d (v ∷ vs) s h = elim (Option-cases (d.catalog (v ++ codes "/catalog"))) [
  | inl e ↦ rw (enqueue_books, e) (enqueue_books-IsTracked d vs s h)
  | inr (ms, e) ↦
      rw (enqueue_books, e)
        (enqueue_books-IsTracked d vs (enqueue_all (some d) v ms s)
          (enqueue_all-IsTracked (some d) v ms s h))
]

build_initial_queue-IsTracked :
    (docs : Option Documents) (vs : List Text) (s : State)
    → IsTracked s
    → IsTracked (build_initial_queue docs vs s)
unfolding build_initial_queue
build_initial_queue-IsTracked none vs s h = h
build_initial_queue-IsTracked (some d) vs s h = enqueue_books-IsTracked d vs s h

load_model-IsTracked :
    (docs : Option Documents) (vs : List Text) (s : State)
    → IsTracked s
    → IsTracked (load_model docs vs s)
unfolding load_model
load_model-IsTracked docs vs s h = grind (arith, build_initial_queue-IsTracked)

cleared-IsTracked : (s : State) → IsTracked s → IsTracked (cleared s)
unfolding cleared
cleared-IsTracked s h =
    empty-IsInStep s.total_queued s.total_processed false (omega (arith, h.counted))

clear_worker-IsTracked : (s : State) → IsTracked s → IsTracked (clear_worker s)
unfolding clear_worker
clear_worker-IsTracked s h = if_rule IsTracked s.has_worker h (cleared-IsTracked s h)

tell_removed-IsTracked : (v : Text) (s : State) → IsTracked s → IsTracked (tell_removed v s)
unfolding tell_removed
tell_removed-IsTracked v s h = if_rule IsTracked s.has_worker h h

continue_call-IsTracked :
    (docs : Option Documents) (vs : List Text) (c : Waiting) (s : State)
    → IsTracked s
    → IsTracked (continue_call docs vs c s)
unfolding continue_call load_cached
continue_call-IsTracked docs vs opening_db s h = h
continue_call-IsTracked docs vs loading_all s h =
    if_rule IsTracked (is_empty s.embeddings) (load_model-IsTracked docs vs s h)
      (if_rule IsTracked s.has_worker h h)
continue_call-IsTracked docs vs clearing_db s h = clear_worker-IsTracked s h
continue_call-IsTracked docs vs (removing_records v) s h = tell_removed-IsTracked v s h
continue_call-IsTracked docs vs _ s h = h

fire_invalidations-IsTracked :
    (docs : Option Documents) (ts : List (Text × InvalidateTimer)) (s : State)
    → IsTracked s
    → IsTracked (fire_invalidations docs ts s)
unfolding fire_invalidations
fire_invalidations-IsTracked docs [] s h = h
fire_invalidations-IsTracked docs ((k, t) ∷ ts) s h =
    fire_invalidations-IsTracked docs ts
      (if leb t.at s.now
        then enqueue_recipe docs t.vault_id t.recipe_id normal
            (record s { invalidate_timers = Maps.remove k s.invalidate_timers })
        else s)
      (if_rule IsTracked (leb t.at s.now)
        (enqueue_recipe-IsTracked docs t.vault_id t.recipe_id normal
          (record s { invalidate_timers = Maps.remove k s.invalidate_timers }) h)
        h)

-- Behind an `await`, too.
look_up_hash-IsTracked :
    (d : Documents) (i : Item) (t : Option Text) (rest : List Item) (es : List Embeddable)
    (s : State)
    → IsTracked s
    → IsTracked (look_up_hash d i t rest es s)
unfolding look_up_hash
look_up_hash-IsTracked d i none rest es s h = next_item-IsTracked d rest es s h
look_up_hash-IsTracked d i (some t) rest es s h =
    if_rule IsTracked (is_empty t) (next_item-IsTracked d rest es s h)
      (if_rule IsTracked s.has_db h h)

store_next-IsTracked :
    (rs : List (Text × List ℕ)) (es : List Embeddable) (s : State)
    → IsTracked s
    → IsTracked (store_next rs es s)
unfolding store_next
store_next-IsTracked [] es s h = h
store_next-IsTracked ((k, v) ∷ rs) es s h = if_rule IsTracked s.has_db h h

go_on-IsTracked :
    (d : Documents) (o : Option Content) (r : Run) (s : State)
    → IsTracked s
    → IsTracked (go_on d o r s)
unfolding go_on
go_on-IsTracked d o (opening i t rest es) s h = h
go_on-IsTracked d o (extracted i t rest es) s h = look_up_hash-IsTracked d i t rest es s h
go_on-IsTracked d o (hashing i t rest es) s h = next_item-IsTracked d rest _ s h
go_on-IsTracked d o (embedding id es) s h = h
go_on-IsTracked d o (storing rest es) s h = store_next-IsTracked rest es s h
go_on-IsTracked d o yielding s h = loop-IsTracked d s h

answer_run-IsTracked :
    (a : Answer) (r : Run) (s : State) → IsTracked s → IsTracked (answer_run a r s)
unfolding answer_run
answer_run-IsTracked (results rs) (embedding id es) s h = store_next-IsTracked rs es s h
answer_run-IsTracked failed (embedding id es) s h = h
answer_run-IsTracked done (embedding id es) s h = h
answer_run-IsTracked failed _ s h = h
answer_run-IsTracked done _ s h = h
answer_run-IsTracked (results rs) _ s h = h

answer_call-IsTracked :
    (a : Answer) (docs : Option Documents) (vs : List Text) (c : Waiting) (s : State)
    → IsTracked s
    → IsTracked (answer_call a docs vs c s)
unfolding answer_call
answer_call-IsTracked failed docs vs (loading_cached id) s h = h
answer_call-IsTracked _ docs vs (loading_cached id) s h = load_model-IsTracked docs vs s h
answer_call-IsTracked failed docs vs (clearing_worker id) s h = h
answer_call-IsTracked _ docs vs (clearing_worker id) s h = cleared-IsTracked s h
answer_call-IsTracked failed docs vs (loading_model id) s h = h
answer_call-IsTracked _ docs vs (loading_model id) s h =
    process_queue-IsTracked docs (record s { model_ready = true }) h
answer_call-IsTracked failed docs vs _ s h = h
answer_call-IsTracked done docs vs _ s h = h
answer_call-IsTracked (results rs) docs vs _ s h = h

step-IsTracked : (e : Event) (s : State) → IsTracked s → IsTracked (step e s)
unfolding step
step-IsTracked (Event.tick m) s h = h
step-IsTracked (Event.timers docs) s h = fire_invalidations-IsTracked docs s.invalidate_timers s h
step-IsTracked Event.hides s h = if_rule IsTracked s.listens h h
step-IsTracked (Event.shows docs) s h =
    let s' = record s { paused = if s.listens then false else s.paused } in
    if_rule IsTracked (s.listens && s.model_ready) (process_queue-IsTracked docs s' h) h
step-IsTracked Event.inits s h = unfold init_vector_search in if_rule IsTracked s.has_worker h h
step-IsTracked Event.clears s h =
    unfold clear_all in if_rule IsTracked s.has_db h (clear_worker-IsTracked s h)
step-IsTracked (Event.removes v) s h =
    unfold remove_book in if_rule IsTracked s.has_db h (tell_removed-IsTracked v s h)
step-IsTracked (Event.invalidates v r) s h = unfold invalidate_recipe in h
step-IsTracked (Event.enqueues docs v r p) s h = enqueue_recipe-IsTracked docs v r p s h
step-IsTracked (Event.goes_on p d o) s h =
    goes_on_rule IsTracked s p d o (λ r rs e. go_on-IsTracked d o r (record s { runs = rs }) h) h
step-IsTracked (Event.continues p docs vs) s h =
    continues_rule IsTracked s p docs vs
      (λ c cs. continue_call-IsTracked docs vs c (record s { calls = cs }) h) h
step-IsTracked (Event.answers id a docs vs) s h =
    unfold handle_worker_message in
    if_rule IsTracked (is_in id s.asked && is_in id s.pending)
      (settle_message_rule IsTracked (take_answer id s) id a docs vs
        (λ r rs e. answer_run-IsTracked a r (record (take_answer id s) { runs = rs }) h)
        (λ c cs. answer_call-IsTracked a docs vs c (record (take_answer id s) { calls = cs }) h) h)
      h

-- Whatever happens in whatever order: the set of keys holds those of the queue, no recipe waits twice,
-- what was processed and what waits is no more than what was queued, and nothing waits when the
-- work is noted as complete.
pub run_events-IsTracked : (es : List Event) (s : State) → IsTracked s → IsTracked (run_events es s)
unfolding run_events
run_events-IsTracked [] s h = h
run_events-IsTracked (e ∷ es) s h = run_events-IsTracked es (step e s) (step-IsTracked e s h)
