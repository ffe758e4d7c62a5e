-- ===== src/Manager/Opening.antt =====
-- frontend/src/lib/document-manager.ts: a document that failed to open once.
use lunch_loxs.Prelude.{◌≡◌, true, none, arith, Text, text_eq_refl}
use lunch_loxs.Prelude.Sets.{has, add, has-add}
use lunch_loxs.Platform.{Platform}
use lunch_loxs.World.{World, quiet}
use lunch_loxs.Store.{open_store}
use lunch_loxs.Manager.{get, opened, open_with_key}

module _ {p : Platform} where
  -- The map of pending promises still has the document's, and it is not open.
  abbrev pub IsStuck : Text → World p → Type 0
  IsStuck d w = (get d w ≡ none) × (has d w.manager.opening ≡ true)

  -- A stuck document cannot be opened, whatever the key and whatever the database holds now.
  stuck :
      (d : Text) (key : p.CryptoKey) (init_fn : p.Doc → p.Doc) (w : World p)
      → IsStuck d w
      → open_with_key quiet d key init_fn w ≡ (none, w)
  unfolding open_with_key
  stuck d key init_fn w h = ground (arith, h)

  open_store-none :
      (d : Text) (key : p.CryptoKey) (init_fn : p.Doc → p.Doc) (w : World p)
      → (open_store quiet d key init_fn w).0 ≡ none
      → (open_store quiet d key init_fn w).1 ≡ w
  unfolding open_store
  open_store-none d key init_fn w h = ground (arith, h)

  open_with_key_fails :
      (d : Text) (key : p.CryptoKey) (init_fn : p.Doc → p.Doc) (w : World p)
      → (open_with_key quiet d key init_fn w).0 ≡ none
      → IsStuck d (open_with_key quiet d key init_fn w).1
  unfolding open_with_key opened get
  open_with_key_fails d key init_fn w h = ground (
    arith,
    h,
    open_store-none d key init_fn
        (record w { manager = record (w.manager) { opening = add d w.manager.opening } }),
    has-add d d w.manager.opening,
    text_eq_refl d,
  )

-- A document that failed to open once, with nothing in between, cannot be opened again as long as
-- the document manager is left as it is, whatever key and whatever records a later call finds.
pub open_with_key_fails_again :
    {p : Platform} (d : Text) (key later_key : p.CryptoKey) (init_fn : p.Doc → p.Doc)
    (w later : World p)
    → (open_with_key quiet d key init_fn w).0 ≡ none
    → later.manager ≡ (open_with_key quiet d key init_fn w).1.manager
    → open_with_key quiet d later_key init_fn later ≡ (none, later)
unfolding get
open_with_key_fails_again d key later_key init_fn w later failed same =
    stuck d later_key init_fn later
      (ground (arith, same, open_with_key_fails d key init_fn w failed))
