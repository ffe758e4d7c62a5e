-- ===== src/Tests.antt =====
-- Concrete sessions for the tests: a platform whose documents are lists of numbers, and a session
-- with one open document of a vault.
mod Sync
mod Vectors
mod Vaults
mod Written
mod Zips
mod Lost
mod Searches
mod Connect
mod Lower
mod Library
mod Amounts
mod Stored
mod Pages
mod Rotated
use lunch_loxs.Prelude.{
  ℕ, Bool, true, false, List, [], ◌∷◌, ◌++◌, ◌==◌, Option, none, some, Text, codes, if◌then◌else◌,
  ◌≡◌, refl, arith, text_eq_iff,
}
use lunch_loxs.Platform.{Platform, Lawful}
use lunch_loxs.Storage.{Database, bytes, flag, doc_key, dirty_key}
use lunch_loxs.Prelude.Maps
use lunch_loxs.Manager.{get}
use lunch_loxs.PushQueue.Acks.{IsLinked}
use lunch_loxs.World.{Store, Client, Manager, Queue, World, update}

abbrev toy_changes : List ℕ → List (List ℕ)
toy_changes [] = []
toy_changes (n ∷ ns) = (n ∷ ns) ∷ []

abbrev toy_apply : List ℕ → List (List ℕ) → List ℕ
toy_apply doc [] = doc
toy_apply doc (c ∷ cs) = toy_apply (doc ++ c) cs

-- The key stands in the clear behind the initialisation vector.
abbrev toy_decrypt : ℕ → List ℕ → Option (List ℕ)
toy_decrypt k (iv ∷ j ∷ b) = if j == k then some b else none
toy_decrypt k _ = none

abbrev pub toy : Platform
toy = record {
  Doc = List ℕ;
  Bytes = List ℕ;
  CryptoKey = ℕ;
  init = [];
  load = λ b. some b;
  save = λ d. d;
  heads = λ d. d ∷ [];
  all_changes = toy_changes;
  apply_changes = toy_apply;
  merge = λ d e. d ++ e;
  encrypt = λ iv k b. iv ∷ k ∷ b;
  decrypt = toy_decrypt;
}

pub toy_lawful : Lawful toy
toy_lawful = record { decrypt-encrypt = λ iv k b. ground arith; load-save = λ d. refl }

-- A recipe of the vault `v1`.
abbrev pub recipe : Text
recipe = codes "v1/r1"

abbrev pub recipe_store : Store toy
recipe_store = record {
  doc = 1 ∷ [];
  doc_id = recipe;
  enc_key = 7;
  init_fn = none;
  pending_write = [];
}

abbrev pub toy_client : Client toy
toy_client = record {
  ws_open = true;
  enc_key = 1;
  get_doc_key = some (λ d. some 7);
  doc_presence = (recipe, codes "here") ∷ [];
  outbox = [];
}

abbrev pub toy_queue : Queue toy
toy_queue = record {
  dirty_set = [];
  timers = [];
  first_change = [];
  flushing = false;
  rate_paused = false;
  backoff_ms = 2000;
  backoff_timer = none;
  error_counts = [];
  deferred_no_key = [];
  failed_vaults = [];
  pending_vault_ids = [];
  ready = true;
  poll_timer = none;
  sign_fn = none;
}

-- The recipe is open, and was pushed before.
abbrev pub toy_world : World toy
toy_world = record {
  queue = toy_queue;
  client = some toy_client;
  manager = record { stores = (recipe, 0) ∷ []; opening = []; enc_key = 7 };
  heap = λ r. recipe_store;
  next_ref = 1;
  db = (dirty_key recipe, flag true) ∷ (doc_key recipe, bytes (0 ∷ 7 ∷ 1 ∷ [])) ∷ [];
  now = 100;
  next_iv = 1;
  started = [];
  answer = none;
  badge = 0;
}

-- The same session with the recipe closed.
abbrev pub closed_world : World toy
closed_world = record toy_world { manager = record { stores = []; opening = []; enc_key = 7 } }

only_recipe : (d : Text) (r : ℕ) → Maps.get d ((recipe, 0) ∷ []) ≡ some r → recipe ≡ d
unfolding Maps.get
only_recipe d r e = ground (arith, text_eq_iff recipe d)

pub toy-IsLinked : IsLinked toy_world
unfolding get
toy-IsLinked = record { link = λ d r e. only_recipe d r e }
