-- ===== src/Manager.antt =====
-- frontend/src/lib/document-manager.ts: the open documents of a session.
pub mod Opening
pub mod Rotation
use lunch_loxs.Prelude.{
  ℕ, Bool, true, false, List, [], ◌∷◌, Option, none, some, Text, if◌then◌else◌, is_some,
}
use lunch_loxs.Prelude.Sets
use lunch_loxs.Prelude.Maps
use lunch_loxs.Platform.{Platform}
use lunch_loxs.World.{Manager, World, Async, case_option, ◌>>=◌, ◌>>◌, return, read, run, await}
use lunch_loxs.Store.{open_store, wait_for_write}

module _ {p : Platform} where
  abbrev in_manager : (Manager p → Manager p) → World p → World p
  in_manager f w = record w { manager = f w.manager }

  -- `get(docId)`
  unfoldable pub get : Text → World p → Option ℕ
  get d w = Maps.get d w.manager.stores

  unfoldable pub is_open : Text → World p → Bool
  is_open d w = is_some (Maps.get d w.manager.stores)

  unfoldable pub update_enc_key : p.CryptoKey → World p → World p
  update_enc_key key = in_manager (λ m. record m { enc_key = key })

  -- The callback of `.then` on the promise of a new store.
  unfoldable pub opened : Text → Option ℕ → World p → World p
  opened d none w = w
  opened d (some r) w =
      in_manager
        (λ m. record m { opening = Sets.remove d m.opening; stores = Maps.set d r m.stores }) w

module _ {p : Platform} (turn : World p → World p) where
  -- `none`: the promise is rejected. A document that is in `opening` is the business of another
  -- task: its store is there when that promise resolves, and never if it was rejected.
  unfoldable pub open_with_key : Text → p.CryptoKey → (p.Doc → p.Doc) → Async p (Option ℕ)
  unfolding get opened
  open_with_key d key init_fn = do
    existing ← read (get d)
    pending ← read (λ w. Sets.has d w.manager.opening)
    case_option existing
        (if pending then (do await turn; read (get d)) else (do
          run (in_manager (λ m. record m { opening = Sets.add d m.opening }))
          result ← open_store turn d key init_fn
          run (opened d result)
          return result))
        (λ r. return (some r))

  -- `open(docId, initFn)`
  unfoldable pub open_doc : Text → (p.Doc → p.Doc) → Async p (Option ℕ)
  unfolding open_with_key
  open_doc d init_fn = do key ← read (λ w. w.manager.enc_key); open_with_key d key init_fn

  unfoldable pub close : Text → Async p (Unit {0})
  unfolding get
  close d = do
    store ← read (get d)
    case_option store (return tt) λ r. do
      wait_for_write turn r
      run (in_manager (λ m. record m { stores = Maps.remove d m.stores }))

  unfoldable pub wait_all : List (Text × ℕ) → Async p (Unit {0})
  wait_all [] = return tt
  wait_all ((d, r) ∷ rest) = do wait_for_write turn r; wait_all rest

  -- `closeAll()`, but for the closing of the database connection
  unfoldable pub close_all : Async p (Unit {0})
  unfolding wait_all
  close_all = do
    stores ← read (λ w. w.manager.stores)
    wait_all stores
    run (in_manager (λ m. record m { stores = [] }))
