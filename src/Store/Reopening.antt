-- ===== src/Store/Reopening.antt =====
-- frontend/src/lib/automerge-store.ts: a written change is there when the document is opened again.
use lunch_loxs.Prelude.{ℕ, ◌≡◌, refl, ap, Option, none, some, Text}
use lunch_loxs.Prelude.Maps
use lunch_loxs.Platform.{Platform, Lawful}
use lunch_loxs.Storage.{bytes, doc_key}
use lunch_loxs.World.{World, Store, update_self, quiet}
use lunch_loxs.Store.{run_pending, change, read_saved, open_store, created}
use lunch_loxs.Store.Jobs.{change-written}

module _ {p : Platform} (l : Lawful p) where
  read_saved-encrypt :
      (iv : ℕ) (k : p.CryptoKey) (d : p.Doc)
      → read_saved p (bytes (p.encrypt iv k (p.save d))) k ≡ some d
  unfolding read_saved
  read_saved-encrypt iv k d = rw (l.decrypt-encrypt iv k (p.save d), read_saved) (l.load-save d)

  open_store_of_saved :
      (iv : ℕ) (d : Text) (k : p.CryptoKey) (doc : p.Doc) (init_fn : p.Doc → p.Doc) (w : World p)
      → Maps.get (doc_key d) w.db ≡ some (bytes (p.encrypt iv k (p.save doc)))
      → open_store quiet d k init_fn w ≡ created quiet d k none doc w
  unfolding open_store
  open_store_of_saved iv d k doc init_fn w e =
      rw (e, open_store) (rw (read_saved-encrypt iv k doc) refl)

  created_lem :
      (d : Text) (k : p.CryptoKey) (f : Option (p.Doc → p.Doc)) (doc : p.Doc) (w : World p)
      → ((created quiet d k f doc w).0 ≡ some w.next_ref)
        × (((created quiet d k f doc w).1.heap w.next_ref).doc ≡ doc)
        × (((created quiet d k f doc w).1.heap w.next_ref).init_fn ≡ f)
  unfolding created
  created_lem d k f doc w = (
    refl,
    ap (λ (s : Store p). s.doc) (update_self w.heap w.next_ref _),
    ap (λ (s : Store p). s.init_fn) (update_self w.heap w.next_ref _),
  )

-- With a cipher and a format that can be read back: once a local change is written, opening the
-- document again under the same key, with nothing in between, gives a store with the changed
-- document, which needs no initialisation.
pub open_store-change :
    {p : Platform} (l : Lawful p) (r : ℕ) (fn init_fn : p.Doc → p.Doc) (w : World p)
    → let w' = run_pending r (change r fn w) in
      let reopened = open_store quiet (w.heap r).doc_id (w.heap r).enc_key init_fn w' in
      (reopened.0 ≡ some w'.next_ref)
      × ((reopened.1.heap w'.next_ref).doc ≡ fn (w.heap r).doc)
      × ((reopened.1.heap w'.next_ref).init_fn ≡ none)
open_store-change l r fn init_fn w =
    let s = w.heap r in
    let w' = run_pending r (change r fn w) in
    let (_, iv, saved) = change-written r fn w in
    rw (open_store_of_saved l iv s.doc_id s.enc_key (fn s.doc) init_fn w' saved)
      (created_lem l s.doc_id s.enc_key none (fn s.doc) w')
