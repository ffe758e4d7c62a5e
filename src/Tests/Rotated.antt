-- ===== src/Tests/Rotated.antt =====
-- A change to the open recipe after a change of the password.
use lunch_loxs.Prelude.{ℕ, ◌≡◌, refl, true, List, ◌∷◌, none, some, text_eq, starts_with}
use lunch_loxs.Prelude.Maps
use lunch_loxs.Storage.{Value, doc_key, get_from_db}
use lunch_loxs.Storage.Rekey.{re_encrypt_all_docs}
use lunch_loxs.Store.{change, run_pending, read_saved}
use lunch_loxs.Manager.Rotation.{rotate_master_key, rotated_change_lost}
use lunch_loxs.Tests.{toy, toy_world, recipe}

rotation_done :
    (re_encrypt_all_docs toy 7 8 (record { db = toy_world.db; next_iv = 1 })).is_done ≡ true
unfolding re_encrypt_all_docs Maps.get starts_with text_eq
rotation_done = refl

rotated_change_lost_example :
    ((rotate_master_key 7 8 toy_world).manager.enc_key ≡ 8)
    × (v : Value (List ℕ)) × (get_from_db
          (run_pending 0 (change 0 (λ doc. 2 ∷ doc) (rotate_master_key 7 8 toy_world))).db
          (doc_key recipe)
        ≡ some v)
    × (read_saved toy v 8 ≡ none)
rotated_change_lost_example =
    rotated_change_lost {p = toy} 7 8 0 (λ doc. 2 ∷ doc) toy_world rotation_done refl (λ iv b. refl)
