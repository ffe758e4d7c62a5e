-- ===== src/Connection/Requests.antt =====
-- frontend/src/lib/sync-client.ts: promises that wait for the server, their timers and resolvers.
use lunch_loxs.Prelude.{
  ℕ, suc, ◌+◌, Bool, true, false, ◌||◌, List, [], ◌∷◌, none, some, Text, if◌then◌else◌, ◌==◌, leb,
}
use lunch_loxs.Prelude.Maps
use lunch_loxs.Platform.{Platform}
use lunch_loxs.World.{Outgoing, lookup_user}
use lunch_loxs.Connection.{
  Awaited, confirmation, lookup, RequestTimer, Connection, request_timeout_ms, send_msg,
}

-- `clearTimeout(timer)`
unfoldable pub clear_request : ℕ → List RequestTimer → List RequestTimer
clear_request id [] = []
clear_request id (t ∷ ts) = if t.id == id then clear_request id ts else t ∷ clear_request id ts

unfoldable pub has_request : ℕ → List RequestTimer → Bool
has_request id [] = false
has_request id (t ∷ ts) = t.id == id || has_request id ts

unfoldable pub is_settled : ℕ → List (ℕ × Bool) → Bool
is_settled id [] = false
is_settled id ((i, ok) ∷ ss) = i == id || is_settled id ss

module _ {p : Platform} where
  -- The promise is resolved (`true`) or rejected, and its timer cleared.
  unfoldable pub settle : ℕ → Bool → Connection p → Connection p
  unfolding clear_request
  settle id ok s = record s {
    request_timers = clear_request id s.request_timers;
    settled = (id, ok) ∷ s.settled;
  }

  abbrev pub forget_confirm : Text → Connection p → Connection p
  forget_confirm key s = record s { confirm_resolvers = Maps.remove key s.confirm_resolvers }

  abbrev pub forget_lookup : Text → Connection p → Connection p
  forget_lookup user s = record s { lookup_resolvers = Maps.remove user s.lookup_resolvers }

  -- A new promise with its timer.
  unfoldable pub promise : Awaited → Connection p → Connection p
  promise a s = record s {
    next_promise = suc s.next_promise;
    request_timers =
        record { id = s.next_promise; due = s.now + request_timeout_ms; awaited = a }
        ∷ s.request_timers;
  }

  -- `awaitConfirmation(confirmType, send)`; the promise that is rejected at once has no timer.
  unfoldable pub await_confirmation : Text → Outgoing p.Bytes → Connection p → Connection p
  unfolding promise send_msg
  await_confirmation key m s =
      if s.client.ws_open
      then send_msg m (record (promise (confirmation key) s) {
        confirm_resolvers = Maps.set key s.next_promise s.confirm_resolvers;
      })
      else record s {
        next_promise = suc s.next_promise;
        settled = (s.next_promise, false) ∷ s.settled;
      }

  -- `lookupUser(targetUserId)`
  unfoldable pub look_up_user : Text → Connection p → Connection p
  unfolding promise send_msg
  look_up_user user s = send_msg (lookup_user user) (record (promise (lookup user) s) {
    lookup_resolvers = Maps.set user s.next_promise s.lookup_resolvers;
  })

  -- `const resolver = this.confirmResolvers.get(key); if (resolver) resolver.resolve()`
  unfoldable pub confirm : Text → Connection p → Connection p
  unfolding settle
  confirm key s = elim (Maps.get key s.confirm_resolvers) [
    | none ↦ s
    | some id ↦ settle id true (forget_confirm key s)
  ]

  unfoldable pub found_user : Text → Connection p → Connection p
  unfolding settle
  found_user user s = elim (Maps.get user s.lookup_resolvers) [
    | none ↦ s
    | some id ↦ settle id true (forget_lookup user s)
  ]

  -- The loops that reject what waits, over the entries of the maps.
  unfoldable pub reject_confirms : List (Text × ℕ) → Connection p → Connection p
  unfolding settle
  reject_confirms [] s = s
  reject_confirms ((key, id) ∷ rest) s =
      reject_confirms rest (settle id false (forget_confirm key s))

  unfoldable pub reject_lookups : List (Text × ℕ) → Connection p → Connection p
  unfolding settle
  reject_lookups [] s = s
  reject_lookups ((user, id) ∷ rest) s =
      reject_lookups rest (settle id false (forget_lookup user s))

  -- The callback of a timer: it removes what the map holds for its key.
  unfoldable pub time_out : RequestTimer → Connection p → Connection p
  unfolding settle
  time_out t s = settle t.id false (elim t.awaited [
    | confirmation key ↦ forget_confirm key s
    | lookup user ↦ forget_lookup user s
  ])

  -- The timers of the list that are due.
  unfoldable pub fire_requests : List RequestTimer → Connection p → Connection p
  unfolding time_out
  fire_requests [] s = s
  fire_requests (t ∷ ts) s = fire_requests ts (if leb t.due s.now then time_out t s else s)
