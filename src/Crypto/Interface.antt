-- ===== src/Crypto/Interface.antt =====
-- frontend/src/lib/crypto.ts as the cipher that the stores and the client take (Platform).
use lunch_loxs.Prelude.{ℕ, ◌≡◌, List, Option, some, Text, length}
use lunch_loxs.Platform.{Platform, Lawful}
use lunch_loxs.Crypto.{Bytes, WebCrypto, LawfulCrypto, encrypt, decrypt}
use lunch_loxs.Crypto.RoundTrip.{decrypt-encrypt}

-- Automerge, with documents saved as bytes.
pub record Automerge : Type 1 where
  pub Doc : Type 0
  pub init : Doc
  pub load : Bytes → Option Doc
  pub save : Doc → Bytes
  pub heads : Doc → List Text
  pub all_changes : Doc → List Bytes
  pub apply_changes : Doc → List Bytes → Doc
  pub merge : Doc → Doc → Doc
  pub load-save : (d : Doc) → load (save d) ≡ some d

-- `encrypt` and `decrypt` of the program, with `vectors` for what getRandomValues draws.
abbrev pub platform : WebCrypto → (ℕ → Bytes) → Automerge → Platform
platform w vectors a = record {
  Doc = a.Doc;
  Bytes = Bytes;
  CryptoKey = w.CryptoKey;
  init = a.init;
  load = a.load;
  save = a.save;
  heads = a.heads;
  all_changes = a.all_changes;
  apply_changes = a.apply_changes;
  merge = a.merge;
  encrypt = λ n key plain. encrypt w (vectors n) plain key;
  decrypt = λ key cipher. decrypt w cipher key;
}

-- With vectors of 12 bytes, the program's format of what is encrypted meets what the theorems on
-- stores, documents and pushes ask of a cipher.
pub platform-Lawful :
    (w : WebCrypto) (vectors : ℕ → Bytes) (a : Automerge)
    → LawfulCrypto w
    → ((n : ℕ) → length (vectors n) ≡ 12)
    → Lawful (platform w vectors a)
platform-Lawful w vectors a lawful twelve = record {
  decrypt-encrypt = λ n key plain. decrypt-encrypt w lawful (vectors n) plain key (twelve n);
  load-save = a.load-save;
}
