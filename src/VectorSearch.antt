-- ===== src/VectorSearch.antt =====
-- frontend/src/lib/vector-search.ts: the variables of the module, the texts of recipes that are
-- embedded, and their hash. What `await` leaves to be done is a value, Run for a loop over the queue
-- and Waiting for the other functions.
pub mod Running
pub mod Calls
pub mod Picking
pub mod Exclusive
pub mod Tracked
pub mod Loop
pub mod Kept
pub mod Stuck
pub mod Hash
use lunch_loxs.Prelude.{
  ℕ, zero, suc, ◌+◌, ◌-◌, ◌*◌, Bool, true, false, List, [], ◌∷◌, ◌++◌, map, Option, none, some,
  Text, codes, length, take, ltb, ◌==◌, if◌then◌else◌, text_eq, is_empty, join, decimal,
}
use lunch_loxs.Prelude.Sets.{TextSet}
use Prim.Native.Nat.{◌/◌, ◌%◌}

pub data Priority : Type 0 where
  high normal : Priority

pub record Item : Type 0 where
  pub vault_id : Text
  pub recipe_id : Text
  pub priority : Priority

-- `${vaultId}/${recipeId}`
abbrev pub key_of : Text → Text → Text
key_of v r = v ++ b'/' ∷ r

abbrev pub item_key : Item → Text
item_key i = key_of i.vault_id i.recipe_id

-- A recipe in the catalog of its book, and its content.
pub record Meta : Type 0 where
  pub id : Text
  pub title : Text
  pub tags : List Text

pub record Content : Type 0 where
  pub description : Text
  pub ingredients : List Text
  pub instructions : Text
  pub notes : Text

-- What the open documents say: the recipes of the catalogs and the contents, by document.
pub record Documents : Type 0 where
  pub catalog : Text → Option (List Meta)
  pub content : Text → Option Content

pub record Embeddable : Type 0 where
  pub key : Text
  pub text : Text

pub record StoredEmbedding : Type 0 where
  pub vector : List ℕ
  pub text_hash : Text

-- Where a loop over the queue waits: for a document to open, for a text, for a hash from the
-- database, for the worker's answer, for a record to be written, for the next turn.
pub data Run : Type 0 where
  opening : Item → Text → List Item → List Embeddable → Run
  extracted : Item → Option Text → List Item → List Embeddable → Run
  hashing : Item → Text → List Item → List Embeddable → Run
  embedding : ℕ → List Embeddable → Run
  storing : List (Text × List ℕ) → List Embeddable → Run
  yielding : Run

-- Where a call of `initVectorSearch`, `removeBook` or `clearAll` waits. The number is that of a
-- message to the worker.
pub data Waiting : Type 0 where
  opening_db loading_all clearing_db : Waiting
  loading_cached clearing_worker loading_model : ℕ → Waiting
  removing_records : Text → Waiting

pub record InvalidateTimer : Type 0 where
  pub vault_id : Text
  pub recipe_id : Text
  pub at : ℕ

pub record State : Type 0 where
  pub has_worker : Bool
  pub has_db : Bool
  pub model_ready : Bool
  pub indexing_complete : Bool
  pub has_shown_ready_toast : Bool
  pub msg_id : ℕ
  pub pending : List ℕ
  -- the messages that a running worker has
  pub asked : List ℕ
  pub queue : List Item
  pub queue_set : TextSet
  pub processing : Bool
  pub paused : Bool
  pub invalidate_timers : List (Text × InvalidateTimer)
  pub total_queued : ℕ
  pub total_processed : ℕ
  pub indexing_start_time : ℕ
  -- the page's listener, the records of the database, the clock, and what is waiting
  pub listens : Bool
  pub embeddings : List (Text × StoredEmbedding)
  pub now : ℕ
  pub runs : List Run
  pub calls : List Waiting

abbrev pub batch_size : ℕ
batch_size = 5

abbrev pub invalidate_ms : ℕ
invalidate_ms = 5000

-- `recipes?.find((r) => r.id === recipeId)`
find_recipe_meta : Text → List Meta → Option Meta
find_recipe_meta r [] = none
find_recipe_meta r (m ∷ ms) = if text_eq m.id r then some m else find_recipe_meta r ms

unfoldable pub title_part : Meta → Text
unfolding join
title_part m =
    if is_empty m.tags then m.title else m.title ++ codes ". " ++ join (codes ", ") m.tags

unfoldable pub given : Text → List Text
given t = if is_empty t then [] else t ∷ []

unfoldable pub content_text : Content → Text
unfolding given join
content_text c = join (codes ". ") (
    given c.description
    ++ (if is_empty c.ingredients
        then []
        else (codes "Ingredients: " ++ join (codes ", ") c.ingredients) ∷ [])
    ++ given c.instructions
    ++ given c.notes)

-- A content that is not available counts as empty.
unfoldable pub full_text : Text → Option Content → Text
unfolding content_text
full_text title none = take 2000 title
full_text title (some c) =
    let content = content_text c in
    take 2000 (if is_empty content then title else title ++ codes ". " ++ content)

-- The title of a recipe that the catalog of its book has.
unfoldable pub find_title : Documents → Item → Option Text
unfolding find_recipe_meta title_part
find_title d i = elim (d.catalog (i.vault_id ++ codes "/catalog")) [
  | none ↦ none
  | some ms ↦ elim (find_recipe_meta i.recipe_id ms) [ none ↦ none | some m ↦ some (title_part m) ]
]

abbrev pub word : ℕ
word = 4294967296

-- `((h << 5) - h + c) | 0` on the 32 bits of `h`
unfoldable pub hash_step : ℕ → ℕ → ℕ
hash_step h c = (h * 32 % word + word - h + c) % word

unfoldable pub hash_from : ℕ → Text → ℕ
unfolding hash_step
hash_from h [] = h
hash_from h (c ∷ s) = hash_from (hash_step h c) s

-- A digit of a number to the base 36.
unfoldable pub digit36 : ℕ → ℕ
digit36 n = if ltb n 10 then b'0' + n else b'a' + (n - 10)

unfoldable pub spelled36 : ℕ → ℕ → Text
unfolding digit36
spelled36 zero n = []
spelled36 (suc fuel) n =
    let rest = spelled36 fuel (n / 36) in
    if ltb n 36 then digit36 n ∷ [] else rest ++ digit36 (n % 36) ∷ []

-- `h.toString(36)` of the signed number that 32 bits stand for; seven digits are enough.
unfoldable pub to_string36 : ℕ → Text
unfolding spelled36
to_string36 h = if ltb h 2147483648 then spelled36 7 h else b'-' ∷ spelled36 7 (word - h)

unfoldable pub simple_hash : Text → Text
unfolding decimal to_string36 hash_from
simple_hash t = decimal (length t) ++ b':' ∷ to_string36 (hash_from 0 t)
