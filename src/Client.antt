-- ===== src/Client.antt =====
-- frontend/src/lib/sync-client.ts: the operations that the push queue calls. `ws.send` on a socket
-- that is no longer open drops the message (the WebSocket standard), so `push` may answer "sent"
-- though nothing left.
pub mod Keys
use lunch_loxs.Prelude.{
  ℕ, zero, suc, Bool, true, false, List, [], ◌∷◌, ◌++◌, Option, none, some, Text, index_of, is_some,
  if◌then◌else◌,
}
use lunch_loxs.Prelude.Maps
use lunch_loxs.Platform.{Platform}
use lunch_loxs.World.{
  Client, Outgoing, push, create_vault, World, Async, case_option, ◌>>=◌, ◌>>◌, return, read, run,
  await,
}

pub data PushResult : Type 0 where
  sent no_key not_connected : PushResult

-- `i > 0` for the result of `indexOf`
abbrev pub is_positive : Option ℕ → Bool
is_positive none = false
is_positive (some zero) = false
is_positive (some (suc i)) = true

module _ {p : Platform} where
  -- `getDocKey(docId)` where the option is given
  unfoldable pub asked_key : Client p → Text → Option p.CryptoKey
  asked_key c d = elim c.get_doc_key [ none ↦ none | some f ↦ f d ]

  -- The master key is never used for a document of a vault.
  unfoldable pub resolve_key : Client p → Text → Option p.CryptoKey
  unfolding asked_key index_of
  resolve_key c d = elim (asked_key c d) [
    | some key ↦ some key
    | none ↦ if is_positive (index_of b'/' d) then none else some c.enc_key
  ]

  unfoldable pub in_client : (Client p → Client p) → World p → World p
  in_client f w = elim w.client [ none ↦ w | some c ↦ record w { client = some (f c) } ]

  -- `ws.send(…)`
  unfoldable pub send : Outgoing p.Bytes → Client p → Client p
  send m c = if c.ws_open then record c { outbox = c.outbox ++ m ∷ [] } else c

  -- The message of a push takes the staged presence with it.
  unfoldable pub send_push : Text → p.Bytes → Client p → Client p
  unfolding send
  send_push d payload c =
      send (push d payload (Maps.get d c.doc_presence))
        (record c { doc_presence = Maps.remove d c.doc_presence })

  -- `sendMsg` checks the socket; `createVaultFireAndForget` sends through it.
  unfoldable pub create_vault_fire_and_forget : Text → Text → Text → Client p → Client p
  unfolding send
  create_vault_fire_and_forget v key sender c =
      if c.ws_open then send (create_vault v key sender) c else c

  unfoldable pub stage_presence : Text → Text → Client p → Client p
  stage_presence d presence c = record c { doc_presence = Maps.set d presence c.doc_presence }

  -- `this.syncClient?.isOpen() ?? false`
  unfoldable pub is_connected : World p → Bool
  is_connected w = elim w.client [ none ↦ false | some c ↦ c.ws_open ]

  -- The payload of a push, encrypted with a fresh initialisation vector.
  unfoldable pub encrypt_payload : p.CryptoKey → p.Bytes → World p → p.Bytes × World p
  encrypt_payload key snapshot w =
      (p.encrypt w.next_iv key snapshot, record w { next_iv = suc w.next_iv })

module _ {p : Platform} (turn : World p → World p) where
  unfoldable pub push_snapshot : Client p → Text → p.Bytes → Async p PushResult
  unfolding resolve_key encrypt_payload send_push in_client
  push_snapshot c d snapshot = case_option (resolve_key c d) (return no_key) λ key.
      if c.ws_open
      then (do
        encrypted ← encrypt_payload key snapshot
        await turn
        run (in_client (send_push d encrypted))
        return sent)
      else return not_connected
