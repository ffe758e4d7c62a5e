-- ===== src/Tests/Vaults.antt =====
-- Concrete runs of the list of vaults, and of keys and signatures.
use lunch_loxs.Prelude.{
  All, ℕ, ◌+◌, ◌≡◌, refl, ap, true, false, ◌&&◌, ◌||◌, List, [], ◌∷◌, ◌++◌, Option, none, some,
  Text, arith, codes, length, text_eq, text_eq_refl, ◌==◌, if◌then◌else◌, starts_with,
}
use lunch_loxs.Prelude.Maps
use lunch_loxs.Prelude.Sets.{has}
use lunch_loxs.Platform.{Lawful}
use lunch_loxs.Storage.{dirty_key, number, seq_key, get_all_pending_vaults}
use lunch_loxs.World.{World, quiet}
use lunch_loxs.Store.{open_store}
use lunch_loxs.Manager.{get}
use lunch_loxs.PushQueue.{vault_id}
use lunch_loxs.Crypto.{
  Bytes, WebCrypto, LawfulCrypto, repeat, sign_payload, verify_payload, encrypt_book_key_for_user,
  decrypt_book_key_from_user,
}
use lunch_loxs.Crypto.RoundTrip.{decrypt-encrypt_book_key}
use lunch_loxs.Crypto.Interface.{Automerge, platform, platform-Lawful}
use lunch_loxs.Session.{
  VaultInfo, Book, Catalogs, Session, ids, take_vault_list, still_pending, await_keys,
}
use lunch_loxs.Session.Books.{is_unlocked}
use lunch_loxs.Session.Forgotten.{take_vault_list_marks, take_vault_list_forgets}
use lunch_loxs.Session.Remote.{
  receive, receive-sign_payload, receive_all_forged, Change, is_forged, receive_all, IsSameBut,
}
use lunch_loxs.Tests.{toy, toy_world, toy_queue, recipe}

-- Only the encrypted key "kv2" can be unwrapped; a catalog has a name and no recipes.
abbrev only_v2 : Catalogs toy
only_v2 = record {
  name_of = λ d. codes "Book";
  recipes_of = λ d. [];
  with_name = λ t d. d;
  new_catalog = λ t d. d;
  unwrap = λ key sender. if text_eq key (codes "kv2") then some 8 else none;
}

abbrev listed : Text → VaultInfo
listed v = record {
  vault_id = v;
  encrypted_vault_key = b'k' ∷ v;
  sender_public_key = codes "p";
  role = codes "owner";
}

abbrev two_vaults : List VaultInfo
two_vaults = listed (codes "v1") ∷ listed (codes "v2") ∷ []

abbrev book : Text → Book toy
book v = record { vault_id = v; name = codes "Mine"; role = codes "owner"; enc_key = 7 }

-- The recipe of the vault `v1` has changes that are not pushed.
abbrev session : Session toy
session = record {
  world = record toy_world { queue = record toy_queue { dirty_set = recipe ∷ [] } };
  has_identity = true;
  books = book (codes "v1") ∷ [];
  index = [];
  active_book = some (codes "v1");
  refreshes = [];
  book_events = 0;
}

session_taken : (take_vault_list quiet only_v2 two_vaults session).0 ≡ true
unfolding take_vault_list Maps.get text_eq has get_all_pending_vaults starts_with open_store
session_taken = refl

recipe_vault : vault_id recipe ≡ some (codes "v1")
unfolding vault_id
recipe_vault = refl

v1_locked : is_unlocked only_v2 (codes "v1") two_vaults ≡ false
unfolding is_unlocked text_eq
v1_locked = refl

not_pending :
    has (codes "v1") (still_pending quiet (await_keys quiet two_vaults session.world)) ≡ false
unfolding await_keys get_all_pending_vaults has starts_with
not_pending = refl

recipe_dirty : has recipe session.world.queue.dirty_set ≡ true
unfolding has text_eq
recipe_dirty = refl

take_vault_list_marks_example :
    has recipe (take_vault_list quiet only_v2 two_vaults session).1.world.queue.dirty_set ≡ (
      has recipe session.world.queue.dirty_set
      && (is_unlocked only_v2 (codes "v1") two_vaults
          || (has (codes "v1") (ids session.books)
              && has
                  (codes "v1")
                  (still_pending quiet (await_keys quiet two_vaults session.world)))))
take_vault_list_marks_example =
    take_vault_list_marks only_v2 two_vaults recipe (codes "v1") session session_taken recipe_vault

take_vault_list_forgets_example :
    (has recipe (take_vault_list quiet only_v2 two_vaults session).1.world.queue.dirty_set ≡ false)
    × (Maps.get (dirty_key recipe) (take_vault_list quiet only_v2 two_vaults session).1.world.db
        ≡ none)
take_vault_list_forgets_example =
    take_vault_list_forgets only_v2 two_vaults recipe (codes "v1") session session_taken
      recipe_vault v1_locked not_pending recipe_dirty

-- A key is its bytes, and the private key of a pair is the public one; a signature is the length of
-- the key and the payload, 64 times.
abbrev toy_unlock : Bytes → Bytes → Option Bytes
toy_unlock k [] = none
toy_unlock k (n ∷ b) = if n == length k then some b else none

abbrev toy_crypto : WebCrypto
toy_crypto = record {
  CryptoKey = Bytes;
  PrivateKey = Bytes;
  PublicKey = Bytes;
  aes_encrypt = λ iv k b. length k ∷ b;
  aes_decrypt = λ iv k b. toy_unlock k b;
  import_aes = λ b. b;
  export_aes = λ k. k;
  import_private = λ b. some b;
  import_public = λ b. some b;
  derive_bits = λ a b. (length a + length b) ∷ [];
  ecdsa_sign = λ k m. repeat 64 (length k + length m);
  ecdsa_verify = λ k s m. text_eq s (repeat 64 (length k + length m));
  hkdf = λ bits salt info. bits;
  digest = λ b. b;
  argon2id = λ password salt n. password;
  lower = λ t. t;
  encode = λ t. t;
}

toy_agree :
    (a b c d sk₁ sk₂ pk₁ pk₂ : Bytes)
    → a ≡ b
    → c ≡ d
    → some a ≡ some sk₁
    → some b ≡ some pk₁
    → some c ≡ some sk₂
    → some d ≡ some pk₂
    → toy_crypto.derive_bits sk₁ pk₂ ≡ toy_crypto.derive_bits sk₂ pk₁
toy_agree a b c d sk₁ sk₂ pk₁ pk₂ ab cd e f g h =
    ground (arith, ap length ab, ap length cd, ab, cd, e, f, g, h)

toy_signed :
    (a b sk pk m : Bytes)
    → a ≡ b
    → some a ≡ some sk
    → some b ≡ some pk
    → toy_crypto.ecdsa_verify pk (toy_crypto.ecdsa_sign sk m) m ≡ true
toy_signed a b sk pk m ab e f =
    let same : sk ≡ pk = cc in rw same (text_eq_refl (repeat 64 (length pk + length m)))

toy_aes : (iv k b : Bytes) → toy_crypto.aes_decrypt iv k (toy_crypto.aes_encrypt iv k b) ≡ some b
toy_aes iv k b = ground arith

abbrev toy_lawful_crypto : LawfulCrypto toy_crypto
toy_lawful_crypto = record {
  IsPair = λ a b. a ≡ b;
  aes = toy_aes;
  import-export = λ k. refl;
  private_key = λ a b e. (a, refl);
  public_key = λ a b e. (b, refl);
  agree = toy_agree;
  signed = toy_signed;
  signature_length = λ sk m. refl;
}

abbrev twelve : ℕ → Bytes
twelve n = repeat 12 n

decrypt-encrypt_book_key_example :
    (e : Bytes) × (encrypt_book_key_for_user toy_crypto
        (twelve 3)
        (1 ∷ [])
        (2 ∷ 2 ∷ [])
        (9 ∷ 9 ∷ [])
      ≡ some e)
    × (decrypt_book_key_from_user toy_crypto (2 ∷ 2 ∷ []) (1 ∷ []) e ≡ some (9 ∷ 9 ∷ []))
decrypt-encrypt_book_key_example =
    decrypt-encrypt_book_key toy_crypto toy_lawful_crypto (twelve 3) (9 ∷ 9 ∷ []) (1 ∷ []) (1 ∷ [])
      (2 ∷ 2 ∷ []) (2 ∷ 2 ∷ []) refl refl refl

abbrev toy_automerge : Automerge
toy_automerge = record {
  Doc = Bytes;
  init = [];
  load = λ b. some b;
  save = λ d. d;
  heads = λ d. d ∷ [];
  all_changes = λ d. d ∷ [];
  apply_changes = λ d cs. d;
  merge = λ d e. d ++ e;
  load-save = λ d. refl;
}

platform-Lawful_example : Lawful (platform toy_crypto twelve toy_automerge)
platform-Lawful_example =
    platform-Lawful toy_crypto twelve toy_automerge toy_lawful_crypto (λ n. refl)

-- The recipe is open.
abbrev receiver : World (platform toy_crypto twelve toy_automerge)
receiver = record {
  queue = record {
    dirty_set = [];
    timers = [];
    first_change = [];
    flushing = false;
    rate_paused = false;
    backoff_ms = 2000;
    backoff_timer = none;
    error_counts = [];
    deferred_no_key = [];
    failed_vaults = [];
    pending_vault_ids = [];
    ready = true;
    poll_timer = none;
    sign_fn = none;
  };
  client = none;
  manager = record { stores = (recipe, 0) ∷ []; opening = []; enc_key = 7 ∷ [] };
  heap = λ r. record {
    doc = 1 ∷ [];
    doc_id = recipe;
    enc_key = 7 ∷ [];
    init_fn = none;
    pending_write = [];
  };
  next_ref = 1;
  db = [];
  now = 0;
  next_iv = 0;
  started = [];
  answer = none;
  badge = 0;
}

abbrev ann : Text
ann = codes "ann"

abbrev known_keys : List (Text × Bytes)
known_keys = (ann, 5 ∷ 5 ∷ []) ∷ []

ann_known : Maps.get ann known_keys ≡ some (5 ∷ 5 ∷ [])
unfolding Maps.get text_eq
ann_known = refl

recipe_open : get recipe receiver ≡ some 0
unfolding get Maps.get text_eq
recipe_open = refl

receive-sign_payload_example :
    (payload : Bytes) × (sign_payload toy_crypto (4 ∷ []) (5 ∷ 5 ∷ []) ≡ some payload)
    × (((receive toy_crypto twelve toy_automerge known_keys recipe payload 6
            (some ann)
            receiver).heap
          0).doc
        ≡ 1 ∷ 4 ∷ [])
    × (Maps.get
          (seq_key recipe)
          (receive toy_crypto twelve toy_automerge known_keys recipe payload 6
            (some ann)
            receiver).db
        ≡ some (number 6))
receive-sign_payload_example =
    receive-sign_payload toy_crypto twelve toy_automerge toy_lawful_crypto (5 ∷ 5 ∷ []) (5 ∷ 5 ∷ [])
      known_keys recipe ann (4 ∷ []) 6 0 receiver refl ann_known recipe_open

-- A payload that is signed with another key.
abbrev forged : Bytes
forged = 1 ∷ (repeat 64 9 ++ 4 ∷ [])

abbrev two_forged : List (Change toy_crypto twelve toy_automerge)
two_forged =
    record { sender = ann; payload = forged; seq = 8 }
    ∷ record { sender = ann; payload = forged; seq = 9 }
    ∷ []

both_forged :
    All
      (λ (c : Change toy_crypto twelve toy_automerge).
        is_forged toy_crypto twelve toy_automerge known_keys c.sender c.payload ≡ true)
      two_forged
unfolding is_forged verify_payload Maps.get text_eq
both_forged = (refl, (refl, tt))

receive_all_forged_example :
    let s' = receive_all toy_crypto twelve toy_automerge known_keys recipe two_forged receiver in
    IsSameBut toy_crypto twelve toy_automerge recipe receiver s'
    × (payload : Bytes) × (sign_payload toy_crypto (4 ∷ []) (5 ∷ 5 ∷ []) ≡ some payload)
    × (((receive toy_crypto twelve toy_automerge known_keys recipe payload 6 (some ann) s').heap
          0).doc
        ≡ 1 ∷ 4 ∷ [])
receive_all_forged_example =
    receive_all_forged toy_crypto twelve toy_automerge toy_lawful_crypto (5 ∷ 5 ∷ []) (5 ∷ 5 ∷ [])
      known_keys recipe ann two_forged (4 ∷ []) 6 0 receiver both_forged refl ann_known recipe_open
