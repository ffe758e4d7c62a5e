-- ===== src/Connection/Resubscribing.antt =====
-- frontend/src/lib/sync-client.ts: what a connection asks for when it is there again.
use lunch_loxs.Prelude.{
  ℕ, ◌≡◌, refl, true, false, List, [], ◌∷◌, ◌++◌, Text, arith, map, or_default,
}
use lunch_loxs.Prelude.Maps
use lunch_loxs.Platform.{Platform}
use lunch_loxs.World.{Outgoing, subscribe}
use lunch_loxs.Connection.{Connection, send_msg, call, on_status_change, connected, on_connected}
use lunch_loxs.Connection.Messages.{
  ServerMessage, connected_msg, resubscribe, resubscribe_all, handle_message, dispatch,
}

-- A list of messages, handed over one by one, stands behind the others.
append-cons : {A : Type 0} (xs ys : List A) (a : A) → (xs ++ a ∷ []) ++ ys ≡ xs ++ a ∷ ys
append-cons [] ys a = refl
append-cons (x ∷ xs) ys a = ground (arith, append-cons xs ys a)

append-nil : {A : Type 0} (xs : List A) → xs ++ [] ≡ xs
append-nil [] = refl
append-nil (x ∷ xs) = ground (arith, append-nil xs)

-- The subscription of a document, from the number in memory or from the one in the database.
abbrev pub subscription : {B : Type 0} → (Text → ℕ) → List (Text × ℕ) → Text → Outgoing B
subscription last_seq seqs d = subscribe d (or_default (Maps.get d seqs) (last_seq d))

module _ {p : Platform} (last_seq : Text → ℕ) where
  outbox-resubscribe :
      (ds : List Text) (s : Connection p)
      → s.client.ws_open ≡ true
      → (resubscribe (λ s. s) last_seq ds s).client.outbox
        ≡ s.client.outbox ++ map (subscription last_seq s.last_seqs) ds
  unfolding resubscribe send_msg
  outbox-resubscribe [] s up = ground (arith, append-nil s.client.outbox)
  outbox-resubscribe (d ∷ ds) s up =
      let m : Outgoing p.Bytes = subscription last_seq s.last_seqs d in
      ground (
        arith,
        up,
        outbox-resubscribe ds (send_msg m s),
        append-cons s.client.outbox (map (subscription last_seq s.last_seqs) ds) m,
      )

  is_signup-resubscribe :
      (ds : List Text) (s : Connection p)
      → (resubscribe (λ s. s) last_seq ds s).is_signup ≡ s.is_signup
  unfolding resubscribe send_msg
  is_signup-resubscribe [] s = refl
  is_signup-resubscribe (d ∷ ds) s =
      ground (arith, is_signup-resubscribe ds (send_msg (subscription last_seq s.last_seqs d) s))

-- When the server says "connected", with nothing in between, an open socket is handed one
-- subscription for each subscribed document, in their order, from the last number that is known of
-- it; and the client no longer signs up.
pub connected_resubscribes :
    {p : Platform} (last_seq : Text → ℕ) (msg : ServerMessage p.Bytes) (s : Connection p)
    → s.client.ws_open ≡ true
    → msg.type ≡ connected_msg
    → let s' = handle_message (λ s. s) last_seq msg s in
      (s'.client.outbox
        ≡ s.client.outbox ++ map (subscription last_seq s.last_seqs) s.subscriptions)
      × (s'.is_signup ≡ false)
unfolding handle_message dispatch resubscribe_all
connected_resubscribes last_seq msg s up e =
    let told = call (on_status_change connected) (record s { is_signup = false }) in
    rw (e, dispatch)
      (
        outbox-resubscribe last_seq s.subscriptions (call (on_connected msg.wrapped_key) told) up,
        is_signup-resubscribe last_seq s.subscriptions (call (on_connected msg.wrapped_key) told),
      )
