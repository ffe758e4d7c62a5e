-- ===== src/VectorSearch/Calls.antt =====
-- frontend/src/lib/vector-search.ts: initVectorSearch, removeBook, clearAll, invalidateRecipe and the
-- worker's messages; and what may happen, one event after another.
use lunch_loxs.Prelude.{
  ℕ, suc, ◌+◌, Bool, true, false, not, ◌&&◌, List, [], ◌∷◌, ◌++◌, Option, none, some, Text, codes,
  leb, ◌==◌, if◌then◌else◌, is_empty, starts_with, keep_if, any,
}
use lunch_loxs.Prelude.Maps
use lunch_loxs.VectorSearch.{
  Priority, normal, Meta, Content, Documents, StoredEmbedding, Run, embedding, yielding, Waiting,
  opening_db, loading_all, loading_cached, loading_model, clearing_db, clearing_worker,
  removing_records, InvalidateTimer, State, invalidate_ms, key_of,
}
use lunch_loxs.VectorSearch.Running.{wait, process_queue, enqueue_recipe, store_next, go_on}

abbrev pub wait_call : Waiting → State → State
wait_call c s = record s { calls = c ∷ s.calls }

-- `postWorker(…)` by one of these calls, where there is a worker.
abbrev pub post : (ℕ → Waiting) → State → State
post c s = wait_call (c (suc s.msg_id)) (record s {
  msg_id = suc s.msg_id;
  pending = suc s.msg_id ∷ s.pending;
  asked = suc s.msg_id ∷ s.asked;
})

unfoldable pub enqueue_all : Option Documents → Text → List Meta → State → State
unfolding enqueue_recipe
enqueue_all docs v [] s = s
enqueue_all docs v (m ∷ ms) s = enqueue_all docs v ms (enqueue_recipe docs v m.id normal s)

-- `buildInitialQueue()` over the books
unfoldable pub enqueue_books : Documents → List Text → State → State
unfolding enqueue_all
enqueue_books d [] s = s
enqueue_books d (v ∷ vs) s = elim (d.catalog (v ++ codes "/catalog")) [
  | none ↦ enqueue_books d vs s
  | some ms ↦ enqueue_books d vs (enqueue_all (some d) v ms s)
]

unfoldable pub build_initial_queue : Option Documents → List Text → State → State
unfolding enqueue_books
build_initial_queue none books s = s
build_initial_queue (some d) books s = enqueue_books d books s

-- `initVectorSearch`, in the parts that its awaits leave.
unfoldable pub init_vector_search : State → State
init_vector_search s = if s.has_worker then s else wait_call opening_db s

-- The worker was terminated while the embeddings were loaded: `postWorker` rejects, and
-- the model is not asked for.
unfoldable pub load_model : Option Documents → List Text → State → State
unfolding build_initial_queue
load_model docs books s =
    record (build_initial_queue docs books (if s.has_worker then post loading_model s else s)) {
      listens = true;
    }

unfoldable pub load_cached : Option Documents → List Text → State → State
unfolding load_model
load_cached docs books s =
    if is_empty s.embeddings
    then load_model docs books s
    else if s.has_worker
    then post loading_cached s
    else s

-- `clearAll`, behind its awaits
unfoldable pub cleared : State → State
cleared s = record s {
  has_db = false;
  has_worker = false;
  asked = [];
  model_ready = false;
  indexing_complete = false;
  queue = [];
  queue_set = [];
  invalidate_timers = [];
}

unfoldable pub clear_worker : State → State
unfolding cleared
clear_worker s = if s.has_worker then post clearing_worker s else cleared s

unfoldable pub clear_all : State → State
unfolding clear_worker
clear_all s =
    if s.has_db then wait_call clearing_db (record s { embeddings = [] }) else clear_worker s

unfoldable pub tell_removed : Text → State → State
tell_removed v s =
    if s.has_worker
    then record s {
      msg_id = suc s.msg_id;
      pending = suc s.msg_id ∷ s.pending;
      asked = suc s.msg_id ∷ s.asked;
    }
    else s

abbrev pub without_book : Text → List (Text × StoredEmbedding) → List (Text × StoredEmbedding)
without_book v [] = []
without_book v ((k, e) ∷ m) =
    if starts_with k (v ++ b'/' ∷ []) then without_book v m else (k, e) ∷ without_book v m

unfoldable pub remove_book : Text → State → State
unfolding tell_removed
remove_book v s =
    if s.has_db
    then wait_call (removing_records v) (record s { embeddings = without_book v s.embeddings })
    else tell_removed v s

-- A call goes on behind an `await` that is not for the worker.
unfoldable pub continue_call : Option Documents → List Text → Waiting → State → State
unfolding load_cached clear_worker tell_removed
continue_call docs books opening_db s =
    wait_call loading_all (record s { has_db = true; has_worker = true })
continue_call docs books loading_all s = load_cached docs books s
continue_call docs books clearing_db s = clear_worker s
continue_call docs books (removing_records v) s = tell_removed v s
continue_call docs books c s = wait_call c s

-- What the worker may answer.
pub data Answer : Type 0 where
  failed done : Answer
  results : List (Text × List ℕ) → Answer

abbrev pub is_in : ℕ → List ℕ → Bool
is_in id ids = any (λ j. j == id) ids

-- An answer with results that a run waits for.
unfoldable pub answer_run : Answer → Run → State → State
unfolding store_next
answer_run (results rs) (embedding id es) s = store_next rs es s
answer_run a (embedding id es) s = wait yielding s
answer_run a r s = wait r s

unfoldable pub answer_call : Answer → Option Documents → List Text → Waiting → State → State
unfolding load_model cleared process_queue
answer_call failed docs books (loading_cached id) s = s
answer_call a docs books (loading_cached id) s = load_model docs books s
answer_call failed docs books (clearing_worker id) s = s
answer_call a docs books (clearing_worker id) s = cleared s
answer_call failed docs books (loading_model id) s = s
answer_call a docs books (loading_model id) s = process_queue docs (record s { model_ready = true })
answer_call a docs books c s = wait_call c s

abbrev pub run_waits : ℕ → Run → Bool
run_waits id (embedding j es) = j == id
run_waits id r = false

abbrev pub call_waits : ℕ → Waiting → Bool
call_waits id (loading_cached j) = j == id
call_waits id (clearing_worker j) = j == id
call_waits id (loading_model j) = j == id
call_waits id c = false

-- The first of a list that passes a test, and the others.
abbrev pub pick {ℓ} : {A : Type ℓ} → (A → Bool) → List A → Option (A × List A)
pick p [] = none
pick p (x ∷ xs) = elim (pick p xs) [
  | none ↦ if p x then some (x, xs) else none
  | some (y, ys) ↦ if p x then some (x, xs) else some (y, x ∷ ys)
]

-- What waits for the answer goes on.
unfoldable pub settle_message : ℕ → Answer → Option Documents → List Text → State → State
unfolding answer_run answer_call
settle_message id a docs books s = elim (pick (run_waits id) s.runs) [
  | some (r, rs) ↦ answer_run a r (record s { runs = rs })
  | none ↦ elim (pick (call_waits id) s.calls) [
    | some (c, cs) ↦ answer_call a docs books c (record s { calls = cs })
    | none ↦ s
  ]
]

abbrev pub take_answer : ℕ → State → State
take_answer id s = record s {
  asked = keep_if (λ j. not (j == id)) s.asked;
  pending = keep_if (λ j. not (j == id)) s.pending;
}

-- `handleWorkerMessage`, for a message that the worker was given and has not yet answered
unfoldable pub handle_worker_message : ℕ → Answer → Option Documents → List Text → State → State
unfolding settle_message
handle_worker_message id a docs books s =
    if is_in id s.asked && is_in id s.pending
    then settle_message id a docs books (take_answer id s)
    else s

unfoldable pub invalidate_recipe : Text → Text → State → State
invalidate_recipe v r s = record s {
  invalidate_timers =
      Maps.set (key_of v r) (record { vault_id = v; recipe_id = r; at = s.now + invalidate_ms })
        s.invalidate_timers;
}

unfoldable pub fire_invalidations : Option Documents → List (Text × InvalidateTimer) → State → State
unfolding enqueue_recipe
fire_invalidations docs [] s = s
fire_invalidations docs ((k, t) ∷ ts) s = fire_invalidations docs ts (
    if leb t.at s.now
    then enqueue_recipe docs t.vault_id t.recipe_id normal
        (record s { invalidate_timers = Maps.remove k s.invalidate_timers })
    else s)

pub data Event : Type 0 where
  -- the clock, its timers, and the page becoming hidden or shown
  tick : ℕ → Event
  timers : Option Documents → Event
  hides : Event
  shows : Option Documents → Event
  -- calls
  inits clears : Event
  removes : Text → Event
  invalidates : Text → Text → Event
  enqueues : Option Documents → Text → Text → Priority → Event
  -- what waits goes on, picked by a test; answers of the worker
  goes_on : (Run → Bool) → Documents → Option Content → Event
  continues : (Waiting → Bool) → Option Documents → List Text → Event
  answers : ℕ → Answer → Option Documents → List Text → Event

unfoldable pub step : Event → State → State
unfolding fire_invalidations process_queue init_vector_search clear_all remove_book
    invalidate_recipe enqueue_recipe go_on continue_call handle_worker_message
step (tick n) s = record s { now = s.now + n }
step (timers docs) s = fire_invalidations docs s.invalidate_timers s
step hides s = if s.listens then record s { paused = true } else s
step (shows docs) s =
    let s' = record s { paused = if s.listens then false else s.paused } in
    if s.listens && s.model_ready then process_queue docs s' else s'
step inits s = init_vector_search s
step clears s = clear_all s
step (removes v) s = remove_book v s
step (invalidates v r) s = invalidate_recipe v r s
step (enqueues docs v r p) s = enqueue_recipe docs v r p s
step (goes_on p d opened) s = elim (pick p s.runs) [
  | none ↦ s
  | some (r, rs) ↦ go_on d opened r (record s { runs = rs })
]
step (continues p docs books) s = elim (pick p s.calls) [
  | none ↦ s
  | some (c, cs) ↦ continue_call docs books c (record s { calls = cs })
]
step (answers id a docs books) s = handle_worker_message id a docs books s

unfoldable pub run_events : List Event → State → State
unfolding step
run_events [] s = s
run_events (e ∷ es) s = run_events es (step e s)
