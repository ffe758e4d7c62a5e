-- ===== src/Tests/Sync.antt =====
-- Runs of the synchronisation on the concrete session, and instances of its theorems.
use lunch_loxs.Prelude.{
  ◌≤◌, ℕ, ◌≡◌, refl, true, false, List, [], ◌∷◌, ◌++◌, none, some, arith, codes, text_eq, ◌⊎◌,
}
use lunch_loxs.Prelude.Sets.{has}
use lunch_loxs.Prelude.Maps
use lunch_loxs.Storage.{dirty_key, get_all_dirty_doc_ids}
use lunch_loxs.World.{quiet}
use lunch_loxs.Store.{run_pending, change, open_store}
use lunch_loxs.Store.Reopening.{open_store-change}
use lunch_loxs.Client.{sent, push_snapshot}
use lunch_loxs.Client.Keys.{push_snapshot_of_vault, handed_over}
use lunch_loxs.PushQueue.Marks.{mark_dirty}
use lunch_loxs.PushQueue.Replies.{on_ack}
use lunch_loxs.PushQueue.Events.{handle_all, Event, tick, marks, timer, runs_started, run_events}
use lunch_loxs.PushQueue.Window.{Typing, waits, fires, changes, events_of, IsDueBy, changes-IsDueBy}
use lunch_loxs.PushQueue.Debounce.{IsScheduled, IsStarted, mark_dirty_cases}
use lunch_loxs.PushQueue.Acks.{get-on_ack}
use lunch_loxs.PushQueue.Errors.{rejected, errors, rejected_five}
use lunch_loxs.Prelude.{includes}
use lunch_loxs.Client.{is_connected, asked_key}
use lunch_loxs.Prelude.{index_of}
use lunch_loxs.PushQueue.Push.{run_started}
use lunch_loxs.PushQueue.Marks.{fire_timer}
use lunch_loxs.PushQueue.Events.{handle}
use lunch_loxs.World.{push}
use lunch_loxs.Tests.{toy-IsLinked, toy, toy_lawful, toy_world, toy_client, recipe}

-- A change, its timer and its push: the message is the document under the vault's key.
history : List (Event toy)
history = marks recipe ∷ tick 200 ∷ timer recipe ∷ runs_started ∷ []

run_events_pushes :
    (run_events (λ w. []) 0 history toy_world).client
    ≡ some (record toy_client {
      outbox = push recipe (1 ∷ 7 ∷ 1 ∷ []) (some (codes "here")) ∷ [];
      doc_presence = [];
    })
unfolding run_events history handle run_started fire_timer Maps.get mark_dirty Maps.set text_eq
    Maps.remove
run_events_pushes = refl

-- A change every 150 ms, of the recipe and of another document.
abbrev keystrokes : List (Typing toy)
keystrokes = waits 150 ∷ fires recipe ∷ changes recipe ∷ waits 150 ∷ changes (codes "v2/r9") ∷ []

changes-IsDueBy_example :
    let w' = handle_all quiet (events_of (changes recipe ∷ keystrokes)) toy_world in
    IsDueBy recipe 100 w' × (1600 ≤ w'.now → has recipe (fire_timer recipe w').started ≡ true)
unfolding Maps.get has is_connected
changes-IsDueBy_example = changes-IsDueBy quiet recipe keystrokes toy_world refl refl refl

get-on_ack_example : Maps.get (dirty_key recipe) (on_ack quiet recipe 5 toy_world).1.db ≡ none
unfolding text_eq
get-on_ack_example = get-on_ack recipe (dirty_key recipe) 5 toy_world toy-IsLinked

mark_dirty_cases_example :
    (has recipe (mark_dirty recipe toy_world).queue.dirty_set ≡ true)
    × (IsScheduled recipe 100 100 [] (mark_dirty recipe toy_world)
        ⊎ IsStarted recipe 100 100 [] true (mark_dirty recipe toy_world))
unfolding Maps.get is_connected
mark_dirty_cases_example = mark_dirty_cases recipe toy_world

rejected_five_example :
    ((rejected 4 recipe (codes "conflict") toy_world).db ≡ toy_world.db)
    × (has recipe (get_all_dirty_doc_ids (rejected 5 recipe (codes "conflict") toy_world).db)
        ≡ false)
    × (errors recipe (rejected 5 recipe (codes "conflict") toy_world) ≡ 0)
unfolding includes Maps.get
rejected_five_example = rejected_five recipe (codes "conflict") 4 toy_world refl refl (omega arith)

push_snapshot_of_vault_example :
    push_snapshot quiet toy_client recipe (4 ∷ []) toy_world
    ≡ (sent, handed_over toy_client recipe (1 ∷ 7 ∷ 4 ∷ []) toy_world)
unfolding index_of asked_key
push_snapshot_of_vault_example =
    push_snapshot_of_vault toy_client recipe (4 ∷ []) toy_world refl refl

abbrev append_two : List ℕ → List ℕ
append_two doc = doc ++ 2 ∷ []

open_store-change_example :
    let w' = run_pending 0 (change 0 append_two toy_world) in
    let reopened = open_store quiet recipe 7 (λ d. d) w' in
    (reopened.0 ≡ some w'.next_ref)
    × ((reopened.1.heap w'.next_ref).doc ≡ 1 ∷ 2 ∷ [])
    × ((reopened.1.heap w'.next_ref).init_fn ≡ none)
open_store-change_example = open_store-change toy_lawful 0 append_two (λ d. d) toy_world
