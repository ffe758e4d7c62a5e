-- ===== src/VectorSearch/Running.antt =====
-- frontend/src/lib/vector-search.ts: enqueueRecipe and processQueue.
use lunch_loxs.Prelude.{
  ℕ, suc, ◌+◌, Bool, true, false, not, ◌&&◌, ◌||◌, List, [], ◌∷◌, ◌++◌, Option, none, some, Text,
  length, take, drop, ltb, ◌==◌, if◌then◌else◌, text_eq, is_empty, or_default,
}
use lunch_loxs.Prelude.Sets.{TextSet, has, add, remove}
use lunch_loxs.Prelude.Maps
use lunch_loxs.VectorSearch.{
  Priority, high, normal, Item, key_of, item_key, Content, Documents, Embeddable, Run, opening,
  extracted, hashing, embedding, storing, yielding, State, batch_size, full_text, find_title,
  simple_hash,
}

unfoldable pub remove_all : List Item → TextSet → TextSet
remove_all [] ks = ks
remove_all (i ∷ is) ks = remove_all is (remove (item_key i) ks)

abbrev pub find_text : Text → List Embeddable → Option Text
find_text k [] = none
find_text k (e ∷ es) = if text_eq e.key k then some e.text else find_text k es

abbrev pub wait : Run → State → State
wait r s = record s { runs = r ∷ s.runs }

-- The totals are reset.
abbrev pub reset_totals : State → State
reset_totals s = record s { total_queued = 0; total_processed = 0; indexing_start_time = 0 }

-- What follows the loop: the work is complete if the queue is empty.
unfoldable pub finish : State → State
finish s =
    if is_empty s.queue && not s.indexing_complete
    then reset_totals (record s {
      processing = false;
      indexing_complete = true;
      has_shown_ready_toast = s.has_shown_ready_toast || ltb 0 s.total_processed;
    })
    else record s { processing = false }

-- `postWorker("embed-batch", …)`; without a worker the promise is rejected.
unfoldable pub embed_batch : List Embeddable → State → State
embed_batch [] s = wait yielding s
embed_batch (e ∷ es) s =
    if s.has_worker
    then wait (embedding (suc s.msg_id) (e ∷ es)) (record s {
      msg_id = suc s.msg_id;
      pending = suc s.msg_id ∷ s.pending;
      asked = suc s.msg_id ∷ s.asked;
    })
    else wait yielding s

-- The next round over a batch, up to its first `await`.
unfoldable pub next_item : Documents → List Item → List Embeddable → State → State
unfolding embed_batch
next_item d [] es s = embed_batch es s
next_item d (i ∷ rest) es s = elim (find_title d i) [
  | none ↦ wait (extracted i none rest es) s
  | some title ↦ elim (d.content (item_key i)) [
    | none ↦ wait (opening i title rest es) s
    | some c ↦ wait (extracted i (some (full_text title (some c))) rest es) s
  ]
]

-- A round of the loop over the queue.
unfoldable pub loop : Documents → State → State
unfolding next_item finish remove_all
loop d s =
    if is_empty s.queue || s.paused
    then finish s
    else let batch = take batch_size s.queue in
      next_item d batch [] (record s {
        queue = drop batch_size s.queue;
        queue_set = remove_all batch s.queue_set;
        total_processed = s.total_processed + length batch;
      })

-- `processQueue()`; without documents there is no document manager.
unfoldable pub process_queue : Option Documents → State → State
unfolding loop
process_queue docs s =
    if s.processing || not s.model_ready || s.paused
    then s
    else let s' = record s {
      processing = true;
      indexing_start_time = if s.indexing_start_time == 0 then s.now else s.indexing_start_time;
    } in
      elim docs [
        | none ↦ record s' { processing = false }
        | some d ↦ if s.has_db then loop d s' else record s' { processing = false }
      ]

-- A recipe joins the queue, without the call of `processQueue`.
unfoldable pub join_queue : Item → State → State
join_queue i s =
    let s₁ =
      if s.indexing_complete then reset_totals (record s { indexing_complete = false }) else s in
    record s₁ {
      queue_set = add (item_key i) s.queue_set;
      total_queued = suc s₁.total_queued;
      queue = elim i.priority [ high ↦ i ∷ s.queue | normal ↦ s.queue ++ i ∷ [] ];
    }

unfoldable pub enqueue_recipe : Option Documents → Text → Text → Priority → State → State
unfolding join_queue process_queue
enqueue_recipe docs v r p s =
    if has (key_of v r) s.queue_set
    then s
    else let s' = join_queue (record { vault_id = v; recipe_id = r; priority = p }) s in
      if s'.model_ready && not s'.processing && not s'.paused then process_queue docs s' else s'

-- The records that are still to be written, with `putEmbedding` of the first; without the database
-- it fails, and the batch is given up.
unfoldable pub store_next : List (Text × List ℕ) → List Embeddable → State → State
store_next [] es s = wait yielding s
store_next ((k, vector) ∷ rest) es s =
    if s.has_db
    then wait (storing rest es) (record s {
      embeddings =
          Maps.put k
            (record { vector = vector; text_hash = simple_hash (or_default (find_text k es) []) })
            s.embeddings;
    })
    else wait yielding s

-- A text that was extracted; an empty one is passed over. Without the database, `getHash` fails and
-- ends the loop.
unfoldable pub look_up_hash :
    Documents → Item → Option Text → List Item → List Embeddable → State → State
unfolding next_item
look_up_hash d i none rest es s = next_item d rest es s
look_up_hash d i (some t) rest es s =
    if is_empty t
    then next_item d rest es s
    else if s.has_db
    then wait (hashing i t rest es) s
    else s

abbrev pub stored_hash : Text → State → Option Text
stored_hash k s = elim (Maps.get k s.embeddings) [ none ↦ none | some e ↦ some e.text_hash ]

abbrev pub same_hash : Option Text → Text → Bool
same_hash none h = false
same_hash (some g) h = text_eq g h

-- The loop goes on behind an `await`; `opened` is the content if the document could be opened. The
-- wait for an answer of the worker ends by `answer`, not here.
unfoldable pub go_on : Documents → Option Content → Run → State → State
unfolding look_up_hash next_item store_next loop
go_on d opened (opening i title rest es) s =
    wait (extracted i (some (full_text title opened)) rest es) s
go_on d opened (extracted i t rest es) s = look_up_hash d i t rest es s
go_on d opened (hashing i t rest es) s =
    next_item d rest
      (if same_hash (stored_hash (item_key i) s) (simple_hash t)
        then es
        else es ++ record { key = item_key i; text = t } ∷ [])
      s
go_on d opened (embedding id es) s = wait (embedding id es) s
go_on d opened (storing rest es) s = store_next rest es s
go_on d opened yielding s = loop d s
