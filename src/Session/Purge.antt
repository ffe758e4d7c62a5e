-- ===== src/Session/Purge.antt =====
-- frontend/src/connect.ts and sync/push-queue.ts: what is left of the dirty documents when the list
-- of vaults has come.
use lunch_loxs.Prelude.{
  ◌≡◌, refl, not, ◌&&◌, List, [], ◌∷◌, none, Text, arith, text_eq, text_eq_iff, if◌then◌else◌,
  Bool-cases, inl, inr,
}
use lunch_loxs.Prelude.Maps
use lunch_loxs.Prelude.Maps.{get-remove}
use lunch_loxs.Prelude.Sets.{TextSet, has, has-remove}
use lunch_loxs.Platform.{Platform}
use lunch_loxs.World.{World, quiet}
use lunch_loxs.Storage.{dirty_key}
use lunch_loxs.Storage.Flags.{get-clear_dirty_flag}
use lunch_loxs.PushQueue.Vaults.{is_orphan, purge_one, purge, purge_orphaned_dirty}

module _ {p : Platform} where
  purge_one_lem :
      (known : TextSet) (d e : Text) (w : World p)
      → (has e (purge_one quiet known d w).1.queue.dirty_set
          ≡ (has e w.queue.dirty_set && not (text_eq d e && is_orphan known d)))
        × (Maps.get (dirty_key e) (purge_one quiet known d w).1.db
            ≡ (if text_eq d e && is_orphan known d then none else Maps.get (dirty_key e) w.db))
  unfolding purge_one text_eq
  purge_one_lem known d e w = elim (Bool-cases (is_orphan known d)) [
    | inl o ↦
        ground
          (arith, o, has-remove d e w.queue.dirty_set, get-clear_dirty_flag w.db d (dirty_key e))
    | inr o ↦ ground (arith, o)
  ]

  purge_lem :
      (known : TextSet) (ds : List Text) (e : Text) (w : World p)
      → (has e (purge quiet known ds w).1.queue.dirty_set
          ≡ (has e w.queue.dirty_set && not (has e ds && is_orphan known e)))
        × (Maps.get (dirty_key e) (purge quiet known ds w).1.db
            ≡ (if has e ds && is_orphan known e then none else Maps.get (dirty_key e) w.db))
  unfolding purge has
  purge_lem known [] e w = (ground arith, refl)
  purge_lem known (d ∷ ds) e w = ground (
    arith,
    purge_one_lem known d e w,
    purge_lem known ds e (purge_one quiet known d w).1,
    text_eq_iff d e,
  )

  -- With nothing in between, the purge takes exactly the dirty documents of unknown vaults from the
  -- dirty set, and deletes the flags of those and of no other document.
  pub purge_orphaned_dirty_lem :
      (known : TextSet) (e : Text) (w : World p)
      → (has e (purge_orphaned_dirty quiet known w).1.queue.dirty_set
          ≡ (has e w.queue.dirty_set && not (is_orphan known e)))
        × (Maps.get (dirty_key e) (purge_orphaned_dirty quiet known w).1.db ≡ (
            if has e w.queue.dirty_set && is_orphan known e
            then none
            else Maps.get (dirty_key e) w.db))
  unfolding purge_orphaned_dirty
  purge_orphaned_dirty_lem known e w = ground (arith, purge_lem known w.queue.dirty_set e w)
