-- ===== src/Session/Remote.antt =====
-- frontend/src/connect.ts with frontend/src/lib/crypto.ts: the signed changes of other users.
use lunch_loxs.Prelude.{
  ℕ, ◌≡◌, refl, ap, ◌∙◌, Bool, true, false, not, List, [], ◌∷◌, Option, none, some, Text, arith,
  All, text_eq, Option-cases, inl, inr,
}
use lunch_loxs.Prelude.Maps
use lunch_loxs.Prelude.Maps.{get-put}
use lunch_loxs.Storage.{seq_key, number, put_to_db}
use lunch_loxs.World.{World, quiet}
use lunch_loxs.Store.{merge, set_last_seq, enqueue}
use lunch_loxs.Manager.{get}
use lunch_loxs.Crypto.{Bytes, WebCrypto, LawfulCrypto, sign_payload, verify_payload}
use lunch_loxs.Crypto.RoundTrip.{verify-sign_payload}
use lunch_loxs.Crypto.Interface.{Automerge, platform}
use lunch_loxs.Session.Handlers.{remote_change_handler}
use lunch_loxs.Prelude.{text_eq_refl}

module _ (w : WebCrypto) (vectors : ℕ → Bytes) (a : Automerge) where
  abbrev pub receive :
      List (Text × Bytes)
      → Text
      → Bytes
      → ℕ
      → Option Text
      → World (platform w vectors a)
      → World (platform w vectors a)
  receive keys d payload seq sender s =
      (remote_change_handler quiet (verify_payload w) keys d payload seq sender s).1

  -- A snapshot of a document that its sender signed, with nothing in between, is merged into the open
  -- document of the receiver, who knows the sender's public key, and its sequence number is stored.
  pub receive-sign_payload :
      (lawful : LawfulCrypto w) (private public : Bytes) (keys : List (Text × Bytes))
      (d user : Text) (doc : a.Doc) (seq r : ℕ) (s : World (platform w vectors a))
      → lawful.IsPair private public
      → Maps.get user keys ≡ some public
      → get d s ≡ some r
      → (payload : Bytes) × (sign_payload w (a.save doc) private ≡ some payload)
        × (((receive keys d payload seq (some user) s).heap r).doc ≡ a.merge (s.heap r).doc doc)
        × (Maps.get (seq_key (s.heap r).doc_id) (receive keys d payload seq (some user) s).db
            ≡ some (number seq))
  unfolding remote_change_handler merge set_last_seq enqueue put_to_db
  receive-sign_payload lawful private public keys d user doc seq r s pair known open_store =
      let (payload, made, checked, _) =
        verify-sign_payload w lawful (a.save doc) private public pair in
      (
        payload,
        made,
        ground (arith, known, checked, open_store, a.load-save doc),
        ground (
          arith,
          known,
          checked,
          open_store,
          a.load-save doc,
          get-put (seq_key (s.heap r).doc_id) (seq_key (s.heap r).doc_id) (number seq) s.db,
          text_eq_refl (seq_key (s.heap r).doc_id),
        ),
      )

  -- A payload that does not verify under the known key of its sender.
  unfoldable pub is_forged : List (Text × Bytes) → Text → Bytes → Bool
  is_forged keys user payload = elim (Maps.get user keys) [
    | none ↦ false
    | some public ↦ not (verify_payload w payload (some public)).1
  ]

  pub record Change : Type 0 where
    pub sender : Text
    pub payload : Bytes
    pub seq : ℕ

  -- Changes that come one after the other.
  unfoldable pub receive_all :
      List (Text × Bytes)
      → Text
      → List Change
      → World (platform w vectors a)
      → World (platform w vectors a)
  receive_all keys d [] s = s
  receive_all keys d (c ∷ cs) s =
      receive_all keys d cs (receive keys d c.payload c.seq (some c.sender) s)

  -- Only the sequence number of a document differs.
  pub record IsSameBut (d : Text) (s s' : World (platform w vectors a)) : Type 0 where
    pub docs : s'.heap ≡ s.heap
    pub stores : s'.manager ≡ s.manager
    pub marks : s'.queue ≡ s.queue
    pub sent : s'.client ≡ s.client
    pub records : (k : Text) → text_eq (seq_key d) k ≡ false → Maps.get k s'.db ≡ Maps.get k s.db

  receive-is_forged :
      (keys : List (Text × Bytes)) (d user : Text) (payload : Bytes) (seq r : ℕ)
      (s : World (platform w vectors a))
      → is_forged keys user payload ≡ true
      → get d s ≡ some r
      → IsSameBut (s.heap r).doc_id s (receive keys d payload seq (some user) s)
  unfolding remote_change_handler set_last_seq put_to_db is_forged
  receive-is_forged keys d user payload seq r s bad open_store =
      elim (Option-cases (Maps.get user keys)) [
        | inl unknown ↦ ground (arith, unknown, bad)
        | inr (public, known) ↦ record {
          docs = ground (arith, known, bad, open_store);
          stores = ground (arith, known, bad, open_store);
          marks = ground (arith, known, bad, open_store);
          sent = ground (arith, known, bad, open_store);
          records = λ k other. ground (
            arith,
            known,
            bad,
            open_store,
            other,
            get-put (seq_key (s.heap r).doc_id) k (number seq) s.db,
          );
        }
      ]

  receive_all-is_forged :
      (keys : List (Text × Bytes)) (d : Text) (cs : List Change) (r : ℕ)
      (s : World (platform w vectors a))
      → All (λ c. is_forged keys c.sender c.payload ≡ true) cs
      → get d s ≡ some r
      → IsSameBut (s.heap r).doc_id s (receive_all keys d cs s)
  unfolding receive_all get
  receive_all-is_forged keys d [] r s bad open_store = record {
    docs = refl;
    stores = refl;
    marks = refl;
    sent = refl;
    records = λ k other. refl;
  }
  receive_all-is_forged keys d (c ∷ cs) r s (b, bad) open_store =
      let s' = receive keys d c.payload c.seq (some c.sender) s in
      let one = receive-is_forged keys d c.sender c.payload c.seq r s b open_store in
      let rest =
        receive_all-is_forged keys d cs r s' bad
          (ap (λ m. Maps.get d m.stores) one.stores ∙ open_store) in
      record {
        docs = rest.docs ∙ one.docs;
        stores = rest.stores ∙ one.stores;
        marks = rest.marks ∙ one.marks;
        sent = rest.sent ∙ one.sent;
        records = λ k other.
            rest.records k (ap (λ h. text_eq (seq_key (h r).doc_id) k) one.docs ∙ other)
            ∙ one.records k other;
      }

  -- Whatever changes come for an open document, each of which does not verify under the known key of
  -- its sender, with nothing in between, change no document, open store, mark or message to the
  -- server, and no record of the database but the document's sequence number; and a snapshot that its
  -- sender signed, when it comes after them, is merged as if they had not come.
  pub receive_all_forged :
      (lawful : LawfulCrypto w) (private public : Bytes) (keys : List (Text × Bytes))
      (d user : Text) (cs : List Change) (doc : a.Doc) (seq r : ℕ)
      (s : World (platform w vectors a))
      → All (λ c. is_forged keys c.sender c.payload ≡ true) cs
      → lawful.IsPair private public
      → Maps.get user keys ≡ some public
      → get d s ≡ some r
      → let s' = receive_all keys d cs s in
        IsSameBut (s.heap r).doc_id s s'
        × (payload : Bytes) × (sign_payload w (a.save doc) private ≡ some payload)
        × (((receive keys d payload seq (some user) s').heap r).doc ≡ a.merge (s.heap r).doc doc)
  unfolding get
  receive_all_forged lawful private public keys d user cs doc seq r s bad pair known open_store =
      let s' = receive_all keys d cs s in
      let same = receive_all-is_forged keys d cs r s bad open_store in
      let (payload, made, merged, _) =
        receive-sign_payload lawful private public keys d user doc seq r s' pair known
          (ap (λ m. Maps.get d m.stores) same.stores ∙ open_store) in
      (same, payload, made, merged ∙ ap (λ h. a.merge (h r).doc doc) same.docs)
