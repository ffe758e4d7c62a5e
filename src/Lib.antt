-- ===== src/Lib.antt =====
-- LunchLoxs: the synchronisation, the search and the recipe library of the application's client.
--
-- A user's recipes are Automerge documents, kept encrypted in the browser's database and pushed,
-- encrypted, through a WebSocket to a server that cannot read them. The parts, and how they call
-- each other:
--
-- Storage.antt models the database functions of frontend/src/lib/automerge-store.ts
-- (clearDirtyFlag, setSeqFlag, getAllDirtyDocIds, getAllPendingVaults and the like) on one
-- ordered map from keys to values; Storage/Rekey.antt models the local cache and the change of
-- the key of everything stored (saveLocalCache, reEncryptAllDocs), Storage/DirtySet.antt states
-- what the dirty flags are as a set. Store.antt models the class AutomergeStore of the same file:
-- a document in memory, its local and remote changes, and its pending writes. Manager.antt models
-- the open documents, frontend/src/lib/document-manager.ts; Manager/Rotation.antt models what a
-- change of the password (frontend/src/ui/account.ts) does to them. Blobs.antt and its children
-- model the attachments, frontend/src/lib/blob-client.ts, which lie in the same database under
-- keys of their own. Client.antt models what the push queue calls of
-- frontend/src/lib/sync-client.ts: the choice of the key, the push of a snapshot, the creation of
-- a vault. Connection.antt and its children model the rest of that class: Requests the promises
-- that wait for the server, Calls the calls that send one message, Heartbeat the pings, the
-- reconnection and the end, Messages the subscriptions and the server's messages, Actions a
-- history of a connection. PushQueue.antt and its children model frontend/src/sync/push-queue.ts:
-- Marks the dirty marks and debounce timers, Replies the server's answers, Push the push of one
-- document, Flush the flush and its backoff, Vaults the start, the poll and the list of vaults,
-- Events the event loop. Search.antt and its children model frontend/src/lib/search.ts.
-- Units.antt and Densities.antt, with their children, model frontend/src/lib/units.ts and
-- densities.ts: the tables of units and densities, and the conversions. Scraper.antt models how
-- frontend/src/lib/recipe-scraper.ts reads the text of an ingredient, with the units of
-- Units.antt, and durations; Scraper/Json.antt models its search for a recipe in the JSON of a
-- page, and the recipe's tags and images, Scraper/Instructions.antt its instructions as plain
-- text. Export/Table.antt models the table of ingredients that frontend/src/lib/export.ts writes
-- and reads, Export/Markdown.antt the rest of a recipe's Markdown, which Export/FrontMatter.antt
-- and Export/Sections.antt read back, Export/Yaml.antt the description of a book,
-- Export/Importing.antt the reading of a ZIP file, whose entries are a list, Export/Names.antt
-- file names and file types.
-- VectorSearch.antt and its children
-- model the queue of recipes to embed, frontend/src/lib/vector-search.ts, with the database of
-- frontend/src/lib/embedding-store.ts: what an `await` leaves to be done is a value, Run or
-- Waiting, and a history is a list of events, so any interleaving of the loop, the calls and the
-- worker's answers is one. The worker itself is not modelled; its answers are events.
-- Session.antt and its children model the books of a session and the handlers of
-- frontend/src/connect.ts with frontend/src/sync/vault-helpers.ts, composed of the operations of
-- the other parts; Crypto.antt models the formats and keys of frontend/src/lib/crypto.ts, and
-- Crypto/Interface.antt makes a Platform of them. World.antt holds the state that these parts
-- share, Platform.antt what comes from elsewhere, Prelude.antt the shared helpers.
--
-- A name of the source keeps its words: markDirty is mark_dirty, flushAllDirty is
-- flush_all_dirty. Where one word names several things, the model has: change for
-- AutomergeStore.change, push_snapshot for SyncClient.push, open_doc for DocumentManager.open,
-- forget_pending for the queue's clearPendingVault, search_index for search, load_found for the
-- part of loadBlobDecrypted that follows the fetch.
--
-- How the code is modelled: The state of a session is a record, World. An asynchronous function
-- passes it along; at each `await` a parameter `turn` changes the state, which stands for
-- whatever the other tasks do meanwhile. A theorem for every `turn` holds for any interleaving;
-- one that says "with nothing in between" takes the quiet event loop. In Events, `turn` runs
-- events whose handlers have awaits of their own, down to a depth `n` that is a parameter, so
-- that no bound on the nesting of tasks is built in; Actions does the same for a connection.
-- Between two awaits a task is not disturbed. The loop of exportBook that looks for a free file
-- name runs on fuel, of which one round more than there are titles is enough. No other recursion
-- needs a bound: it follows a list. A store object is a reference into a heap, so that a store
-- that is open and the manager's entry for it are the same object. Documents, the format of a
-- saved document and the AES-GCM cipher are parameters (Platform); the theorems that need it
-- assume that what is encrypted or saved can be read back (Lawful). Times and counters are
-- natural numbers of any size. A timer is the time at which it fires. Texts are lists of UTF-16
-- code units; `toLowerCase` is a parameter. Quantities are exact fractions that are not negative,
-- and the factors of units are whole numbers of ten-thousandths. A regular expression is a
-- function by clauses that says what it matches. The requests to the server, the digest and the
-- JSON of an attachment's metadata are parameters (Services).
--
-- What is not modelled: the rounding of doubles; names of units that are properties of every
-- JavaScript object, which the theorem on the text of an ingredient leaves out; the writing of a
-- ZIP file; the DOM of a page that is scraped; quantities as texts; transactions of the database
-- that fail; documents that are subscribed to or left while the subscriptions are renewed; how
-- connect.ts finds the key of a document, which is a parameter of the client; a client that is
-- replaced, or disconnects on purpose, while a push encrypts its payload; change listeners, log
-- lines and dialogs, of which only the answer is kept; the content of vault and member lists;
-- the hybrid search, which asks an embedding worker; what follows a connection (onConnected) and
-- the rotation of a vault key; the user interface, the editor and the server.
pub mod Prelude
pub mod Platform
pub mod Storage
pub mod World
pub mod Store
pub mod Manager
pub mod Client
pub mod Connection
pub mod PushQueue
pub mod Blobs
pub mod Units
pub mod Densities
pub mod Export
pub mod Scraper
pub mod Search
pub mod VectorSearch
pub mod Crypto
pub mod Session
pub mod Tests
