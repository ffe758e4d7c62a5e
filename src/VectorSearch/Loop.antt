-- ===== src/VectorSearch/Loop.antt =====
-- frontend/src/lib/vector-search.ts: the loop over the queue and what joins it leave the queue, its
-- set of keys and the totals in step.
use lunch_loxs.Prelude.{
  ℕ, suc, ◌+◌, ◌≡◌, sym, ap, subst, Bool, true, false, not, ◌&&◌, ◌||◌, List, [], ◌∷◌, ◌++◌, Option,
  none, some, Text, length, take, drop, arith, is_empty, if◌then◌else◌, ◌==◌, if_rule, Bool-cases,
  Option-cases, inl, inr,
}
use lunch_loxs.Prelude.Sets.{TextSet, has, add}
use lunch_loxs.VectorSearch.{
  Priority, high, normal, Item, Documents, Embeddable, State, item_key, key_of, batch_size,
  find_title,
}
use lunch_loxs.VectorSearch.Tracked.{
  IsInStep, IsTracked, push-IsInStep, append-IsInStep, take-IsInStep,
}
use lunch_loxs.VectorSearch.Running.{
  remove_all, finish, embed_batch, next_item, loop, process_queue, join_queue, enqueue_recipe,
}

embed_batch-IsTracked :
    (es : List Embeddable) (s : State) → IsTracked s → IsTracked (embed_batch es s)
unfolding embed_batch
embed_batch-IsTracked [] s h = h
embed_batch-IsTracked (e ∷ es) s h = if_rule IsTracked s.has_worker h h

pub next_item-IsTracked :
    (d : Documents) (is : List Item) (es : List Embeddable) (s : State)
    → IsTracked s
    → IsTracked (next_item d is es s)
unfolding next_item
next_item-IsTracked d [] es s h = embed_batch-IsTracked es s h
next_item-IsTracked d (i ∷ is) es s h = elim (Option-cases (find_title d i)) [
  | inl n ↦ rw (next_item, n) h
  | inr (t, n) ↦ elim (Option-cases (d.content (item_key i))) [
    | inl m ↦ rw (next_item, n, m) h
    | inr (c, m) ↦ rw (next_item, n, m) h
  ]
]

finish-IsTracked : (s : State) → IsTracked s → IsTracked (finish s)
unfolding finish
finish-IsTracked s h = elim (Bool-cases (is_empty s.queue && not s.indexing_complete)) [
  | inr e ↦ rw (finish, e) h
  | inl e ↦
      let f : s.queue ≡ [] = ground (arith, e) in
      rw (finish, e)
        (record {
          listed = h.listed;
          distinct = h.distinct;
          counted = omega (arith, ap length f);
          idle = λ _. f;
        })
]

pub loop-IsTracked : (d : Documents) (s : State) → IsTracked s → IsTracked (loop d s)
unfolding loop
loop-IsTracked d s h = elim (Bool-cases (is_empty s.queue || s.paused)) [
  | inl e ↦ rw (loop, e) (finish-IsTracked s h)
  | inr e ↦
      let busy : s.indexing_complete ≡ false = ground (arith, e, h.idle) in
      let batch = take batch_size s.queue in
      let taken =
        take-IsInStep batch_size s.queue s.queue_set s.total_queued s.total_processed
          (subst (IsInStep s.queue s.queue_set s.total_queued s.total_processed) busy h) in
      rw (loop, e)
        (next_item-IsTracked d batch []
          (record s {
            queue = drop batch_size s.queue;
            queue_set = remove_all batch s.queue_set;
            total_processed = s.total_processed + length batch;
          })
          (subst
            (IsInStep (drop batch_size s.queue) (remove_all batch s.queue_set) s.total_queued
              (s.total_processed + length batch))
            (sym busy) taken))
]

-- `processQueue` past its guard.
started-IsTracked :
    (docs : Option Documents) (t : ℕ) (s : State)
    → IsTracked s
    → IsTracked (elim docs [
      | none ↦ record s { processing = false; indexing_start_time = t }
      | some d ↦
          if s.has_db
          then loop d (record s { processing = true; indexing_start_time = t })
          else record s { processing = false; indexing_start_time = t }
    ])
started-IsTracked none t s h = h
started-IsTracked (some d) t s h =
    if_rule IsTracked s.has_db
      (loop-IsTracked d (record s { processing = true; indexing_start_time = t }) h) h

pub process_queue-IsTracked :
    (docs : Option Documents) (s : State) → IsTracked s → IsTracked (process_queue docs s)
unfolding process_queue
process_queue-IsTracked docs s h =
    elim (Bool-cases (s.processing || not s.model_ready || s.paused)) [
      | inl e ↦ rw (process_queue, e) h
      | inr e ↦
          rw (process_queue, e)
            (started-IsTracked docs
              (if s.indexing_start_time == 0 then s.now else s.indexing_start_time) s h)
    ]

-- An item joins at either end of the queue.
joined :
    (i : Item) (q : List Item) (ks : TextSet) (n p : ℕ) (c : Bool)
    → IsInStep q ks n p c
    → has (item_key i) ks ≡ false
    → IsInStep
        (elim i.priority [ high ↦ i ∷ q | normal ↦ q ++ i ∷ [] ])
        (add (item_key i) ks)
        (suc n)
        p
        false
joined i q ks n p c h new = by_priority i.priority
  where
    by_priority :
        (o : Priority)
        → IsInStep
            (elim o [ high ↦ i ∷ q | normal ↦ q ++ i ∷ [] ])
            (add (item_key i) ks)
            (suc n)
            p
            false
    by_priority high = push-IsInStep i q ks n p c h new
    by_priority normal = append-IsInStep i q ks n p c h new

-- The totals of a queue with nothing in it may be reset.
reset-IsInStep :
    (q : List Item) (ks : TextSet) (n p : ℕ) (c : Bool)
    → IsInStep q ks n p c
    → q ≡ []
    → IsInStep q ks 0 0 c
reset-IsInStep q ks n p c h e = record {
  listed = h.listed;
  distinct = h.distinct;
  counted = omega (arith, ap length e);
  idle = h.idle;
}

join_queue-IsTracked :
    (i : Item) (s : State)
    → IsTracked s
    → has (item_key i) s.queue_set ≡ false
    → IsTracked (join_queue i s)
unfolding join_queue
join_queue-IsTracked i s h new = elim (Bool-cases s.indexing_complete) [
  | inl e ↦
      rw (join_queue, e)
        (joined i s.queue s.queue_set 0 0 s.indexing_complete
          (reset-IsInStep s.queue s.queue_set s.total_queued s.total_processed s.indexing_complete h
            (h.idle e))
          new)
  | inr e ↦
      rw (join_queue, e)
        (joined i s.queue s.queue_set s.total_queued s.total_processed s.indexing_complete h new)
]

pub enqueue_recipe-IsTracked :
    (docs : Option Documents) (v r : Text) (p : Priority) (s : State)
    → IsTracked s
    → IsTracked (enqueue_recipe docs v r p s)
unfolding enqueue_recipe
enqueue_recipe-IsTracked docs v r p s h = elim (Bool-cases (has (key_of v r) s.queue_set)) [
  | inl e ↦ rw (enqueue_recipe, e) h
  | inr e ↦
      let i : Item = record { vault_id = v; recipe_id = r; priority = p } in
      let joined = join_queue-IsTracked i s h e in
      let s' = join_queue i s in
      elim (Bool-cases (s'.model_ready && not s'.processing && not s'.paused)) [
        | inl f ↦ rw (enqueue_recipe, e, f) (process_queue-IsTracked docs s' joined)
        | inr f ↦ rw (enqueue_recipe, e, f) joined
      ]
]
