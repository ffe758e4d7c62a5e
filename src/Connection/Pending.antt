-- ===== src/Connection/Pending.antt =====
-- frontend/src/lib/sync-client.ts: no promise is left hanging.
use lunch_loxs.Prelude.{
  ℕ, ◌+◌, ◌≤◌, ◌<◌, ◌≡◌, ◌||◌, ◌&&◌, not, Bool, true, false, List, [], ◌∷◌, Text, arith, ◌==◌, All,
  Option-cases, Bool-cases, inl, inr, leb,
}
use lunch_loxs.Prelude.Maps
use lunch_loxs.Platform.{Platform}
use lunch_loxs.World.{Outgoing}
use lunch_loxs.Connection.{
  Awaited, confirmation, lookup, RequestTimer, Connection, request_timeout_ms,
}
use lunch_loxs.Connection.Requests.{
  forget_confirm, forget_lookup, clear_request, has_request, is_settled, settle, promise,
  await_confirmation, look_up_user, confirm, found_user, reject_confirms, reject_lookups, time_out,
  fire_requests,
}

-- Every promise that was made is settled or has a timer, and a timer fires within its time.
pub record IsKept (settled : List (ℕ × Bool)) (timers : List RequestTimer) (next now : ℕ)
    : Type 0 where
  pub answered : (i : ℕ) → i < next → (is_settled i settled || has_request i timers) ≡ true
  pub soon : All (λ t. t.due ≤ now + request_timeout_ms) timers

has-clear_request :
    (i j : ℕ) (ts : List RequestTimer)
    → has_request i (clear_request j ts) ≡ (not (j == i) && has_request i ts)
unfolding has_request clear_request
has-clear_request i j [] = ground arith
has-clear_request i j (t ∷ ts) = ground (arith, has-clear_request i j ts)

All-clear_request :
    (now j : ℕ) (ts : List RequestTimer)
    → All (λ t. t.due ≤ now) ts
    → All (λ t. t.due ≤ now) (clear_request j ts)
unfolding clear_request
All-clear_request now j [] h = tt
All-clear_request now j (t ∷ ts) h = ground (arith, All-clear_request now j ts h.1)

pub All-later :
    (now later : ℕ) (ts : List RequestTimer)
    → now ≤ later
    → All (λ t. t.due ≤ now) ts
    → All (λ t. t.due ≤ later) ts
All-later now later [] h k = tt
All-later now later (t ∷ ts) h k = (omega arith, All-later now later ts h k.1)

module _ {p : Platform} where
  abbrev pub IsAnswered : Connection p → Type 0
  IsAnswered s = IsKept s.settled s.request_timers s.next_promise s.now

  settle-IsAnswered :
      (id : ℕ) (ok : Bool) (s : Connection p) → IsAnswered s → IsAnswered (settle id ok s)
  unfolding settle is_settled
  settle-IsAnswered id ok s h = record {
    answered = λ i k. ground (arith, h.answered i k, has-clear_request i id s.request_timers);
    soon = All-clear_request (s.now + request_timeout_ms) id s.request_timers h.soon;
  }

  promise-IsAnswered : (a : Awaited) (s : Connection p) → IsAnswered s → IsAnswered (promise a s)
  unfolding promise has_request
  promise-IsAnswered a s h = record {
    answered = λ i k. ground (arith, h.answered i);
    soon = (omega arith, h.soon);
  }

  pub await_confirmation-IsAnswered :
      (key : Text) (m : Outgoing p.Bytes) (s : Connection p)
      → IsAnswered s
      → IsAnswered (await_confirmation key m s)
  unfolding await_confirmation is_settled
  await_confirmation-IsAnswered key m s h = elim (Bool-cases s.client.ws_open) [
    | inl up ↦ rw (up, await_confirmation) (promise-IsAnswered (confirmation key) s h)
    | inr down ↦
        rw (down, await_confirmation)
          (record { answered = λ i k. ground (arith, h.answered i); soon = h.soon })
  ]

  pub look_up_user-IsAnswered :
      (user : Text) (s : Connection p) → IsAnswered s → IsAnswered (look_up_user user s)
  unfolding look_up_user
  look_up_user-IsAnswered user s h = promise-IsAnswered (lookup user) s h

  pub confirm-IsAnswered :
      (key : Text) (s : Connection p) → IsAnswered s → IsAnswered (confirm key s)
  unfolding confirm
  confirm-IsAnswered key s h = elim (Option-cases (Maps.get key s.confirm_resolvers)) [
    | inl e ↦ rw (e, confirm) h
    | inr (id, e) ↦ rw (e, confirm) (settle-IsAnswered id true (forget_confirm key s) h)
  ]

  pub found_user-IsAnswered :
      (user : Text) (s : Connection p) → IsAnswered s → IsAnswered (found_user user s)
  unfolding found_user
  found_user-IsAnswered user s h = elim (Option-cases (Maps.get user s.lookup_resolvers)) [
    | inl e ↦ rw (e, found_user) h
    | inr (id, e) ↦ rw (e, found_user) (settle-IsAnswered id true (forget_lookup user s) h)
  ]

  pub reject_confirms-IsAnswered :
      (es : List (Text × ℕ)) (s : Connection p) → IsAnswered s → IsAnswered (reject_confirms es s)
  unfolding reject_confirms
  reject_confirms-IsAnswered [] s h = h
  reject_confirms-IsAnswered ((key, id) ∷ es) s h =
      reject_confirms-IsAnswered es (settle id false (forget_confirm key s))
        (settle-IsAnswered id false (forget_confirm key s) h)

  pub reject_lookups-IsAnswered :
      (es : List (Text × ℕ)) (s : Connection p) → IsAnswered s → IsAnswered (reject_lookups es s)
  unfolding reject_lookups
  reject_lookups-IsAnswered [] s h = h
  reject_lookups-IsAnswered ((user, id) ∷ es) s h =
      reject_lookups-IsAnswered es (settle id false (forget_lookup user s))
        (settle-IsAnswered id false (forget_lookup user s) h)

  -- What a timer that fires forgets of the maps.
  forget-IsAnswered :
      (a : Awaited) (s : Connection p)
      → IsAnswered s
      → IsAnswered
          (elim a [ confirmation key ↦ forget_confirm key s | lookup user ↦ forget_lookup user s ])
  forget-IsAnswered (confirmation key) s h = h
  forget-IsAnswered (lookup user) s h = h

  time_out-IsAnswered :
      (t : RequestTimer) (s : Connection p) → IsAnswered s → IsAnswered (time_out t s)
  unfolding time_out
  time_out-IsAnswered t s h =
      settle-IsAnswered t.id false
        (elim t.awaited [
          | confirmation key ↦ forget_confirm key s
          | lookup user ↦ forget_lookup user s
        ])
        (forget-IsAnswered t.awaited s h)

  pub fire_requests-IsAnswered :
      (ts : List RequestTimer) (s : Connection p) → IsAnswered s → IsAnswered (fire_requests ts s)
  unfolding fire_requests
  fire_requests-IsAnswered [] s h = h
  fire_requests-IsAnswered (t ∷ ts) s h = elim (Bool-cases (leb t.due s.now)) [
    | inl due ↦
        rw (due, fire_requests)
          (fire_requests-IsAnswered ts (time_out t s) (time_out-IsAnswered t s h))
    | inr early ↦ rw (early, fire_requests) (fire_requests-IsAnswered ts s h)
  ]
