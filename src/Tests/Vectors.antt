-- ===== src/Tests/Vectors.antt =====
-- Concrete runs of the queue of recipes to embed.
use lunch_loxs.Prelude.{
  ◌≡◌, refl, Bool, true, false, List, [], ◌∷◌, none, some, Text, codes, ◌≤◌, arith, text_eq,
}
use lunch_loxs.Prelude.Sets.{has}
use lunch_loxs.Prelude.Maps
use lunch_loxs.VectorSearch.{
  Meta, Content, Documents, Run, embedding, Waiting, State, simple_hash, find_title, full_text,
}
use lunch_loxs.VectorSearch.Calls.{done, cleared, Event, run_events}
use lunch_loxs.VectorSearch.Exclusive.{IsSingle, run_events-IsSingle}
use lunch_loxs.VectorSearch.Tracked.{IsTracked}
use lunch_loxs.VectorSearch.Kept.{run_events-IsTracked}
use lunch_loxs.VectorSearch.Stuck.{cleared_stuck}

abbrev fresh : State
fresh = record {
  has_worker = false;
  has_db = false;
  model_ready = false;
  indexing_complete = false;
  has_shown_ready_toast = false;
  msg_id = 0;
  pending = [];
  asked = [];
  queue = [];
  queue_set = [];
  processing = false;
  paused = false;
  invalidate_timers = [];
  total_queued = 0;
  total_processed = 0;
  indexing_start_time = 0;
  listens = false;
  embeddings = [];
  now = 1000;
  runs = [];
  calls = [];
}

abbrev soup : Meta
soup = record { id = codes "r1"; title = codes "Soup"; tags = codes "hot" ∷ [] }

abbrev soup_content : Content
soup_content = record {
  description = codes "Good";
  ingredients = codes "water" ∷ codes "salt" ∷ [];
  instructions = [];
  notes = codes "Stir";
}

abbrev one_book : Documents
one_book = record { catalog = λ d. some (soup ∷ []); content = λ d. some soup_content }

abbrev any_run : Run → Bool
any_run r = true

abbrev any_call : Waiting → Bool
any_call c = true

-- The first start: the database is opened and read, the model is loaded, and the recipe is extracted,
-- looked up and given to the worker.
abbrev started : List Event
started =
    Event.inits
    ∷ Event.continues any_call (some one_book) (codes "v1" ∷ [])
    ∷ Event.continues any_call (some one_book) (codes "v1" ∷ [])
    ∷ Event.answers 1 done (some one_book) []
    ∷ Event.goes_on any_run one_book none
    ∷ Event.goes_on any_run one_book none
    ∷ []

fresh-IsTracked : IsTracked fresh
unfolding has
fresh-IsTracked = record {
  listed = λ k. refl;
  distinct = tt;
  counted = omega arith;
  idle = λ e. refl;
}

run_events-IsSingle_example : IsSingle (run_events started fresh)
run_events-IsSingle_example = run_events-IsSingle started fresh (omega arith, λ e. refl)

run_events-IsTracked_example : IsTracked (run_events started fresh)
run_events-IsTracked_example = run_events-IsTracked started fresh fresh-IsTracked

abbrev soup_text : Text
soup_text = codes "Soup. hot. Good. Ingredients: water, salt. Stir"

-- The worker has the text of the recipe.
started_run :
    (run_events started fresh).runs
    ≡ embedding 2 (record { key = codes "v1/r1"; text = soup_text } ∷ []) ∷ []
unfolding run_events Maps.get has text_eq simple_hash find_title full_text
started_run = refl

-- Everything is cleared while the worker embeds the batch, and started anew.
abbrev again : List Event
again =
    Event.inits
    ∷ Event.continues any_call (some one_book) (codes "v1" ∷ [])
    ∷ Event.continues any_call (some one_book) (codes "v1" ∷ [])
    ∷ Event.answers 3 done (some one_book) []
    ∷ []

started_processing : (run_events started fresh).processing ≡ true
unfolding run_events Maps.get has text_eq simple_hash find_title full_text
started_processing = refl

started_msg_id : 2 ≤ (run_events started fresh).msg_id
unfolding run_events Maps.get has text_eq simple_hash find_title full_text
started_msg_id = omega arith

cleared_stuck_example :
    ((run_events again (cleared (run_events started fresh))).processing ≡ true)
    × ((run_events again (cleared (run_events started fresh))).runs
        ≡ embedding 2 (record { key = codes "v1/r1"; text = soup_text } ∷ []) ∷ [])
    × ((run_events again (cleared (run_events started fresh))).total_processed
        ≡ (run_events started fresh).total_processed)
cleared_stuck_example =
    cleared_stuck 2 (record { key = codes "v1/r1"; text = soup_text } ∷ [])
      (run_events started fresh) again started_run started_processing started_msg_id

-- `simpleHash("Soup")`
soup_hash : simple_hash (codes "Soup") ≡ codes "4:1jd3r"
unfolding simple_hash
soup_hash = refl
