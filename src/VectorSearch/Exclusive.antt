-- ===== src/VectorSearch/Exclusive.antt =====
-- frontend/src/lib/vector-search.ts: one loop over the queue at a time.
use lunch_loxs.Prelude.{
  ℕ, ◌≤◌, ◌≡◌, refl, ap, true, false, List, [], ◌∷◌, Option, none, some, Text, length, arith, Bool,
  Bool-cases, if◌then◌else◌, inl, inr,
}
use lunch_loxs.VectorSearch.{
  Priority, normal, Item, Meta, Documents, Content, Embeddable, Run, opening, extracted, hashing,
  embedding, storing, yielding, Waiting, opening_db, loading_all, loading_cached, loading_model,
  clearing_db, clearing_worker, removing_records, InvalidateTimer, State,
}
use lunch_loxs.VectorSearch.Running.{
  finish, embed_batch, next_item, loop, process_queue, join_queue, enqueue_recipe, store_next,
  look_up_hash, go_on,
}
use lunch_loxs.VectorSearch.Picking.{length-pick, settle_message_rule, goes_on_rule, continues_rule}
use lunch_loxs.VectorSearch.Calls.{
  enqueue_all, enqueue_books, build_initial_queue, load_model, load_cached, clear_worker, cleared,
  init_vector_search, clear_all, tell_removed, remove_book, invalidate_recipe, take_answer,
  continue_call, Answer, failed, done, results, answer_run, answer_call, settle_message, pick,
  handle_worker_message, fire_invalidations, Event, step, run_events, run_waits,
}

-- At most one loop waits, and none does if no loop is noted.
abbrev pub IsSingle : State → Type 0
IsSingle s = (length s.runs ≤ 1) × (s.processing ≡ false → s.runs ≡ [])

-- A loop runs, and none waits.
abbrev IsBusy : State → Type 0
IsBusy s = (s.runs ≡ []) × (s.processing ≡ true)

embed_batch-IsSingle : (es : List Embeddable) (s : State) → IsBusy s → IsSingle (embed_batch es s)
unfolding embed_batch
embed_batch-IsSingle [] s b = ground arith
embed_batch-IsSingle (e ∷ es) s b = ground arith

next_item-IsSingle :
    (d : Documents) (is : List Item) (es : List Embeddable) (s : State)
    → IsBusy s
    → IsSingle (next_item d is es s)
unfolding next_item
next_item-IsSingle d [] es s b = embed_batch-IsSingle es s b
next_item-IsSingle d (i ∷ is) es s b = ground arith

loop-IsSingle : (d : Documents) (s : State) → IsBusy s → IsSingle (loop d s)
unfolding loop finish
loop-IsSingle d s b = grind (arith, next_item-IsSingle)

process_queue-IsSingle :
    (docs : Option Documents) (s : State) → IsSingle s → IsSingle (process_queue docs s)
unfolding process_queue
process_queue-IsSingle none s h = ground arith
process_queue-IsSingle (some d) s h = grind (arith, loop-IsSingle)

join_queue-IsSingle : (i : Item) (s : State) → IsSingle s → IsSingle (join_queue i s)
unfolding join_queue
join_queue-IsSingle i s h = ground arith

enqueue_recipe-IsSingle :
    (docs : Option Documents) (v r : Text) (p : Priority) (s : State)
    → IsSingle s
    → IsSingle (enqueue_recipe docs v r p s)
unfolding enqueue_recipe
enqueue_recipe-IsSingle docs v r p s h = grind (arith, join_queue-IsSingle, process_queue-IsSingle)

enqueue_all-IsSingle :
    (docs : Option Documents) (v : Text) (ms : List Meta) (s : State)
    → IsSingle s
    → IsSingle (enqueue_all docs v ms s)
unfolding enqueue_all
enqueue_all-IsSingle docs v [] s h = h
enqueue_all-IsSingle docs v (m ∷ ms) s h =
    enqueue_all-IsSingle docs v ms (enqueue_recipe docs v m.id normal s)
      (enqueue_recipe-IsSingle docs v m.id normal s h)

enqueue_books-IsSingle :
    (d : Documents) (vs : List Text) (s : State) → IsSingle s → IsSingle (enqueue_books d vs s)
unfolding enqueue_books
enqueue_books-IsSingle d [] s h = h
enqueue_books-IsSingle d (v ∷ vs) s h =
    grind (arith, enqueue_books-IsSingle d vs, enqueue_all-IsSingle)

build_initial_queue-IsSingle :
    (docs : Option Documents) (vs : List Text) (s : State)
    → IsSingle s
    → IsSingle (build_initial_queue docs vs s)
unfolding build_initial_queue
build_initial_queue-IsSingle none vs s h = h
build_initial_queue-IsSingle (some d) vs s h = enqueue_books-IsSingle d vs s h

load_model-IsSingle :
    (docs : Option Documents) (vs : List Text) (s : State)
    → IsSingle s
    → IsSingle (load_model docs vs s)
unfolding load_model
load_model-IsSingle docs vs s h = grind (arith, build_initial_queue-IsSingle)

continue_call-IsSingle :
    (docs : Option Documents) (vs : List Text) (c : Waiting) (s : State)
    → IsSingle s
    → IsSingle (continue_call docs vs c s)
unfolding continue_call load_cached clear_worker cleared tell_removed
continue_call-IsSingle docs vs opening_db s h = h
continue_call-IsSingle docs vs loading_all s h = grind (arith, load_model-IsSingle)
continue_call-IsSingle docs vs clearing_db s h = ground arith
continue_call-IsSingle docs vs (removing_records v) s h = ground arith
continue_call-IsSingle docs vs _ s h = h

fire_invalidations-IsSingle :
    (docs : Option Documents) (ts : List (Text × InvalidateTimer)) (s : State)
    → IsSingle s
    → IsSingle (fire_invalidations docs ts s)
unfolding fire_invalidations
fire_invalidations-IsSingle docs [] s h = h
fire_invalidations-IsSingle docs ((k, t) ∷ ts) s h =
    grind (arith, fire_invalidations-IsSingle docs ts, enqueue_recipe-IsSingle)

store_next-IsSingle :
    (rs : List (Text × List ℕ)) (es : List Embeddable) (s : State)
    → IsBusy s
    → IsSingle (store_next rs es s)
unfolding store_next
store_next-IsSingle [] es s b = ground arith
store_next-IsSingle (r ∷ rs) es s b = ground arith

go_on-IsSingle :
    (d : Documents) (o : Option Content) (r : Run) (s : State) → IsBusy s → IsSingle (go_on d o r s)
unfolding go_on look_up_hash
go_on-IsSingle d o (opening i t rest es) s b = ground arith
go_on-IsSingle d o (extracted i none rest es) s b = next_item-IsSingle d rest es s b
go_on-IsSingle d o (extracted i (some t) rest es) s b = grind (arith, next_item-IsSingle)
go_on-IsSingle d o (hashing i t rest es) s b = next_item-IsSingle d rest _ s b
go_on-IsSingle d o (embedding id es) s b = ground arith
go_on-IsSingle d o (storing rest es) s b = store_next-IsSingle rest es s b
go_on-IsSingle d o yielding s b = loop-IsSingle d s b

answer_run-IsSingle : (a : Answer) (r : Run) (s : State) → IsBusy s → IsSingle (answer_run a r s)
unfolding answer_run
answer_run-IsSingle (results rs) (embedding id es) s b = store_next-IsSingle rs es s b
answer_run-IsSingle failed (embedding id es) s b = ground arith
answer_run-IsSingle done (embedding id es) s b = ground arith
answer_run-IsSingle failed _ s b = ground arith
answer_run-IsSingle done _ s b = ground arith
answer_run-IsSingle (results rs) _ s b = ground arith

answer_call-IsSingle :
    (a : Answer) (docs : Option Documents) (vs : List Text) (c : Waiting) (s : State)
    → IsSingle s
    → IsSingle (answer_call a docs vs c s)
unfolding answer_call cleared
answer_call-IsSingle failed docs vs (loading_cached id) s h = h
answer_call-IsSingle _ docs vs (loading_cached id) s h = load_model-IsSingle docs vs s h
answer_call-IsSingle failed docs vs (clearing_worker id) s h = h
answer_call-IsSingle _ docs vs (clearing_worker id) s h = h
answer_call-IsSingle failed docs vs (loading_model id) s h = h
answer_call-IsSingle _ docs vs (loading_model id) s h =
    process_queue-IsSingle docs (record s { model_ready = true }) h
answer_call-IsSingle failed docs vs _ s h = h
answer_call-IsSingle done docs vs _ s h = h
answer_call-IsSingle (results rs) docs vs _ s h = h

-- A loop that is taken from those that wait leaves none, and loops are noted.
picked-IsBusy :
    (p : Run → Bool) (s : State) (r : Run) (rs : List Run)
    → IsSingle s
    → pick p s.runs ≡ some (r, rs)
    → IsBusy (record s { runs = rs })
picked-IsBusy p s r [] h e = elim (Bool-cases s.processing) [
  | inl b ↦ (refl, b)
  | inr b ↦ absurd (omega (arith, length-pick p s.runs r [] e, ap length (h.1 b)))
]
picked-IsBusy p s r (q ∷ rs) h e = absurd (omega (arith, length-pick p s.runs r (q ∷ rs) e, h.0))

settle_message-IsSingle :
    (id : ℕ) (a : Answer) (docs : Option Documents) (vs : List Text) (s : State)
    → IsSingle s
    → IsSingle (settle_message id a docs vs s)
settle_message-IsSingle id a docs vs s h =
    settle_message_rule IsSingle s id a docs vs
      (λ r rs e.
        answer_run-IsSingle a r (record s { runs = rs }) (picked-IsBusy (run_waits id) s r rs h e))
      (λ c cs. answer_call-IsSingle a docs vs c (record s { calls = cs }) h) h

step-IsSingle : (e : Event) (s : State) → IsSingle s → IsSingle (step e s)
unfolding step
step-IsSingle (Event.tick n) s h = h
step-IsSingle (Event.timers docs) s h = fire_invalidations-IsSingle docs s.invalidate_timers s h
step-IsSingle Event.hides s h = ground arith
step-IsSingle (Event.shows docs) s h = ground (
  arith,
  process_queue-IsSingle docs (record s { paused = if s.listens then false else s.paused }) h,
)
step-IsSingle Event.inits s h = unfold init_vector_search in ground arith
step-IsSingle Event.clears s h =
    unfold clear_all in unfold clear_worker in unfold cleared in ground arith
step-IsSingle (Event.removes v) s h = unfold remove_book in unfold tell_removed in ground arith
step-IsSingle (Event.invalidates v r) s h = unfold invalidate_recipe in h
step-IsSingle (Event.enqueues docs v r p) s h = enqueue_recipe-IsSingle docs v r p s h
step-IsSingle (Event.goes_on p d o) s h =
    goes_on_rule IsSingle s p d o
      (λ r rs e. go_on-IsSingle d o r (record s { runs = rs }) (picked-IsBusy p s r rs h e)) h
step-IsSingle (Event.continues p docs vs) s h =
    continues_rule IsSingle s p docs vs
      (λ c cs. continue_call-IsSingle docs vs c (record s { calls = cs }) h) h
step-IsSingle (Event.answers id a docs vs) s h =
    unfold handle_worker_message in
    ground (arith, settle_message-IsSingle id a docs vs (take_answer id s) h)

-- Whatever happens in whatever order, two loops over the queue never wait at the same time, and
-- one waits only while `processing` is set.
pub run_events-IsSingle : (es : List Event) (s : State) → IsSingle s → IsSingle (run_events es s)
unfolding run_events
run_events-IsSingle [] s h = h
run_events-IsSingle (e ∷ es) s h = run_events-IsSingle es (step e s) (step-IsSingle e s h)
