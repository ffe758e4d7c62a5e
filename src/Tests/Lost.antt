-- ===== src/Tests/Lost.antt =====
-- Runs in which a local change or a document is lost to the session, and instances of the theorems
-- about them.
use lunch_loxs.Prelude.{ℕ, ◌≡◌, refl, true, List, [], ◌∷◌, ◌++◌, none, text_eq}
use lunch_loxs.Prelude.Sets.{has}
use lunch_loxs.Prelude.Maps
use lunch_loxs.Storage.{get_all_dirty_doc_ids}
use lunch_loxs.World.{quiet}
use lunch_loxs.Manager.{open_with_key}
use lunch_loxs.Manager.Opening.{open_with_key_fails_again}
use lunch_loxs.PushQueue.Replies.{on_ack}
use lunch_loxs.PushQueue.Loss.{edited, gone_offline, IsForgotten, on_ack_forgets}
use lunch_loxs.Manager.{get}
use lunch_loxs.Store.{open_store}
use lunch_loxs.Tests.{toy-IsLinked, toy_world, closed_world, recipe}

abbrev append_nine : List ℕ → List ℕ
append_nine doc = doc ++ 9 ∷ []

on_ack_forgets_example :
    let before = edited 0 recipe append_nine toy_world in
    let after = gone_offline recipe (on_ack quiet recipe 5 before).1 in
    (has recipe (get_all_dirty_doc_ids before.db) ≡ true)
    × IsForgotten recipe after
    × ((after.heap 0).doc ≡ 1 ∷ 9 ∷ [])
    × (after.started ≡ [])
unfolding get Maps.get text_eq
on_ack_forgets_example = on_ack_forgets 0 5 recipe append_nine toy_world toy-IsLinked refl refl

-- The wrong key first, then the right one.
open_with_key_fails_again_example :
    let later = (open_with_key quiet recipe 8 (λ d. d) closed_world).1 in
    open_with_key quiet recipe 7 (λ d. d) later ≡ (none, later)
unfolding open_with_key Maps.get has open_store text_eq
open_with_key_fails_again_example =
    open_with_key_fails_again recipe 8 7 (λ d. d) closed_world
      (open_with_key quiet recipe 8 (λ d. d) closed_world).1 refl refl
