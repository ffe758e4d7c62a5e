-- ===== src/World.antt =====
-- The state of one signed-in session: open documents (frontend/src/lib/automerge-store.ts and
-- document-manager.ts), the push queue (frontend/src/sync/push-queue.ts) and what the queue sees of
-- the sync client (frontend/src/lib/sync-client.ts), with the event loop around them.
pub mod Keeps
use lunch_loxs.Prelude.{
  ℕ, Bool, List, ◌≡◌, arith, [], ◌∷◌, Option, none, some, Text, ◌==◌, suc, if◌then◌else◌,
}
use lunch_loxs.Prelude.Sets.{TextSet}
use lunch_loxs.Platform.{Platform}
use lunch_loxs.Storage.{Database}

-- A write that `pendingWrite` still has to make.
pub data Job : Type 0 where
  persist : Job
  persist_and_mark_dirty : Job

-- What the client hands to `ws.send`; `request` is any other message of the client to the server:
-- its type and its fields.
pub data Outgoing (Bytes : Type 0) : Type 0 where
  push : Text → Bytes → Option Text → Outgoing Bytes
  create_vault : Text → Text → Text → Outgoing Bytes
  connect : Bool → Outgoing Bytes
  subscribe : Text → ℕ → Outgoing Bytes
  unsubscribe : Text → Outgoing Bytes
  presence : Text → Text → Outgoing Bytes
  lookup_user : Text → Outgoing Bytes
  request : Text → List (Text × Text) → Outgoing Bytes
  ping : Outgoing Bytes

module _ (p : Platform) where
  -- class AutomergeStore
  pub record Store : Type 0 where
    pub doc : p.Doc
    pub doc_id : Text
    pub enc_key : p.CryptoKey
    pub init_fn : Option (p.Doc → p.Doc)
    pub pending_write : List Job

  -- class DocumentManager; a store is a reference into the heap. `opening` holds the documents whose
  -- promise is in that map: one that was rejected stays there.
  pub record Manager : Type 0 where
    pub stores : List (Text × ℕ)
    pub opening : TextSet
    pub enc_key : p.CryptoKey

  -- class SyncClient, the fields that a push reads and writes
  pub record Client : Type 0 where
    pub ws_open : Bool
    pub enc_key : p.CryptoKey
    pub get_doc_key : Option (Text → Option p.CryptoKey)
    pub doc_presence : List (Text × Text)
    pub outbox : List (Outgoing p.Bytes)

  -- class PushQueue; a timer is the time at which it fires
  pub record Queue : Type 0 where
    pub dirty_set : TextSet
    pub timers : List (Text × ℕ)
    pub first_change : List (Text × ℕ)
    pub flushing : Bool
    pub rate_paused : Bool
    pub backoff_ms : ℕ
    pub backoff_timer : Option ℕ
    pub error_counts : List (Text × ℕ)
    pub deferred_no_key : TextSet
    pub failed_vaults : TextSet
    pub pending_vault_ids : TextSet
    pub ready : Bool
    pub poll_timer : Option ℕ
    pub sign_fn : Option (p.Bytes → p.Bytes)

  pub record World : Type 0 where
    pub queue : Queue
    pub client : Option Client
    pub manager : Manager
    -- the store objects, and the next free reference
    pub heap : ℕ → Store
    pub next_ref : ℕ
    pub db : Database p.Bytes
    -- `Date.now()`, and the source of initialisation vectors
    pub now : ℕ
    pub next_iv : ℕ
    -- pushes that a timer has started and that have not run yet
    pub started : List Text
    -- the answer to the next dialog; `none`: there is no DOM, so the import throws
    pub answer : Option Bool
    -- how often the badge listener (`onDirtyChange`) was called
    pub badge : ℕ

-- An asynchronous function runs to its end; at each `await` in it the event loop takes a turn.
abbrev pub Async : Platform → Type 0 → Type 0
Async p A = World p → A × World p

infixl 5 ◌>>=◌ ◌>>◌
abbrev pub ◌>>=◌ : {p : Platform} {A B : Type 0} → Async p A → (A → Async p B) → Async p B
◌>>=◌ m f w = let (a, w') = m w in f a w'

abbrev pub ◌>>◌ : {p : Platform} {A B : Type 0} → Async p A → Async p B → Async p B
m >> k = m >>= λ _. k

abbrev pub return : {p : Platform} {A : Type 0} → A → Async p A
return a w = (a, w)

abbrev pub read : {p : Platform} {A : Type 0} → (World p → A) → Async p A
read f w = (f w, w)

-- A synchronous statement.
abbrev pub run : {p : Platform} → (World p → World p) → Async p (Unit {0})
run f w = (tt, f w)

-- `await`: the other tasks run, then this one goes on.
abbrev pub await : {p : Platform} → (World p → World p) → Async p (Unit {0})
await turn w = (tt, turn w)

-- An event loop with nothing else to do.
abbrev pub quiet : {p : Platform} → World p → World p
quiet w = w

-- The two cases of an optional value, and of a list.
abbrev pub case_option : {A B : Type 0} → Option A → B → (A → B) → B
case_option none n f = n
case_option (some a) n f = f a

abbrev pub case_list : {A B : Type 0} → List A → B → (A → List A → B) → B
case_list [] n f = n
case_list (a ∷ l) n f = f a l

module _ {p : Platform} where
  abbrev pub in_queue : (Queue p → Queue p) → World p → World p
  in_queue f w = record w { queue = f w.queue }

  -- `this.onDirtyChange?.()`
  abbrev pub notify : World p → World p
  notify w = record w { badge = suc w.badge }

abbrev pub update : {A : Type 0} → (ℕ → A) → ℕ → A → ℕ → A
update h r a s = if s == r then a else h s

pub update_self : {A : Type 0} (h : ℕ → A) (r : ℕ) (a : A) → update h r a r ≡ a
update_self h r a = ground arith

-- A write that keeps `f` at its place keeps it everywhere.
pub update_keeps :
    {A : Type 0} {B : Type 0} (f : A → B) (h : ℕ → A) (r i : ℕ) (a : A)
    → f a ≡ f (h r)
    → f (update h r a i) ≡ f (h i)
update_keeps f h r i a e = ground (arith, e)
