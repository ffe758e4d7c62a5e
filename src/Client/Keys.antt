-- ===== src/Client/Keys.antt =====
-- frontend/src/lib/sync-client.ts: with which key a push is encrypted, and what reaches the socket.
use lunch_loxs.Prelude.{suc, ◌≡◌, true, [], ◌∷◌, ◌++◌, some, arith, Text, index_of, if◌then◌else◌}
use lunch_loxs.Prelude.Maps
use lunch_loxs.Platform.{Platform}
use lunch_loxs.World.{World, Client, push, quiet, case_option}
use lunch_loxs.Client.{
  sent, no_key, not_connected, is_positive, asked_key, resolve_key, push_snapshot,
}

-- The state after a message with a payload has been handed to the socket of the client `c`: the
-- staged presence of the document went with it.
abbrev pub handed_over : {p : Platform} → Client p → Text → p.Bytes → World p → World p
handed_over c d payload w = record w {
  next_iv = suc w.next_iv;
  client = some (record c {
    outbox = c.outbox ++ push d payload (Maps.get d c.doc_presence) ∷ [];
    doc_presence = Maps.remove d c.doc_presence;
  });
}

module _ {p : Platform} where
  -- For a document of a vault there is the key of that vault or none, never the master key.
  pub resolve_key_of_vault :
      (c : Client p) (d : Text)
      → is_positive (index_of b'/' d) ≡ true
      → resolve_key c d ≡ asked_key c d
  unfolding resolve_key
  resolve_key_of_vault c d h = ground (arith, h)

  push_snapshot_lem :
      (c : Client p) (d : Text) (snapshot : p.Bytes) (w : World p)
      → w.client ≡ some c
      → push_snapshot quiet c d snapshot w
        ≡ case_option
            (resolve_key c d)
            (no_key, w)
            (λ key.
              if c.ws_open
              then (sent, handed_over c d (p.encrypt w.next_iv key snapshot) w)
              else (not_connected, w))
  unfolding push_snapshot
  push_snapshot_lem c d snapshot w at = ground (arith, at)

-- A push of a document of a vault, with nothing in between: without a key for that vault it answers
-- "no key" and changes nothing, whatever the master key. With one, and an open socket, the socket is
-- handed one message, the snapshot encrypted with the vault's key and a fresh initialisation vector,
-- with the staged presence; if the socket is not open nothing changes.
pub push_snapshot_of_vault :
    {p : Platform} (c : Client p) (d : Text) (snapshot : p.Bytes) (w : World p)
    → w.client ≡ some c
    → is_positive (index_of b'/' d) ≡ true
    → push_snapshot quiet c d snapshot w
      ≡ case_option
          (asked_key c d)
          (no_key, w)
          (λ key.
            if c.ws_open
            then (sent, handed_over c d (p.encrypt w.next_iv key snapshot) w)
            else (not_connected, w))
push_snapshot_of_vault c d snapshot w at vault =
    rw (← resolve_key_of_vault c d vault) (push_snapshot_lem c d snapshot w at)
