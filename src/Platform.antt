-- ===== src/Platform.antt =====
-- What the program takes from elsewhere: Automerge documents (@automerge/automerge) and the AES-GCM
-- cipher of WebCrypto. Both are parameters of the model.
use lunch_loxs.Prelude.{ℕ, ◌≡◌, Option, some, List, Text}

pub record Platform : Type 1 where
  pub Doc : Type 0
  pub Bytes : Type 0
  pub CryptoKey : Type 0
  -- Automerge.init, load (`none`: it throws), save, getHeads, getAllChanges, applyChanges, merge
  pub init : Doc
  pub load : Bytes → Option Doc
  pub save : Doc → Bytes
  pub heads : Doc → List Text
  pub all_changes : Doc → List Bytes
  pub apply_changes : Doc → List Bytes → Doc
  pub merge : Doc → Doc → Doc
  -- encrypt with a fresh initialisation vector, and decrypt (`none`: it throws)
  pub encrypt : ℕ → CryptoKey → Bytes → Bytes
  pub decrypt : CryptoKey → Bytes → Option Bytes

-- The documented behaviour that theorems rely on.
pub record Lawful (p : Platform) : Type 0 where
  pub decrypt-encrypt :
      (iv : ℕ) (k : p.CryptoKey) (b : p.Bytes) → p.decrypt k (p.encrypt iv k b) ≡ some b
  pub load-save : (d : p.Doc) → p.load (p.save d) ≡ some d
