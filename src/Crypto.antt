-- ===== src/Crypto.antt =====
-- frontend/src/lib/crypto.ts: the formats of what is encrypted and signed, and the hierarchy of keys.
-- WebCrypto and Argon2 are parameters; bytes are numbers below 256.
pub mod RoundTrip
pub mod Hex
pub mod Interface
use lunch_loxs.Prelude.{
  ℕ, zero, suc, ◌+◌, ◌-◌, ◌*◌, ◌<◌, ◌≡◌, Bool, true, false, not, ◌&&◌, ◌||◌, List, [], ◌∷◌, ◌++◌,
  Option, none, some, Text, codes, length, take, drop, ltb, leb, ◌==◌, if◌then◌else◌, trim,
}
use Prim.Native.Nat.{◌/◌, ◌%◌}

abbrev pub Bytes : Type 0
Bytes = List ℕ

-- What the program takes from the browser and from hash-wasm; `none`: the promise is rejected.
pub record WebCrypto : Type 1 where
  pub CryptoKey : Type 0
  pub PrivateKey : Type 0
  pub PublicKey : Type 0
  -- AES-GCM, by the initialisation vector
  pub aes_encrypt : Bytes → CryptoKey → Bytes → Bytes
  pub aes_decrypt : Bytes → CryptoKey → Bytes → Option Bytes
  pub import_aes : Bytes → CryptoKey
  pub export_aes : CryptoKey → Bytes
  -- P-256 keys, as PKCS 8 and raw
  pub import_private : Bytes → Option PrivateKey
  pub import_public : Bytes → Option PublicKey
  pub derive_bits : PrivateKey → PublicKey → Bytes
  pub ecdsa_sign : PrivateKey → Bytes → Bytes
  pub ecdsa_verify : PublicKey → Bytes → Bytes → Bool
  -- HKDF by its salt and its info, SHA-256, and Argon2id by its iterations
  pub hkdf : Bytes → Bytes → Bytes → CryptoKey
  pub digest : Bytes → Bytes
  pub argon2id : Text → Bytes → ℕ → Text
  -- `toLowerCase`, and TextEncoder
  pub lower : Text → Text
  pub encode : Text → Bytes

-- The documented behaviour that theorems rely on. `IsPair`: generated together.
pub record LawfulCrypto (w : WebCrypto) : Type 1 where
  pub IsPair : Bytes → Bytes → Type 0
  pub aes :
      (iv : Bytes) (k : w.CryptoKey) (b : Bytes)
      → w.aes_decrypt iv k (w.aes_encrypt iv k b) ≡ some b
  pub import-export : (k : w.CryptoKey) → w.import_aes (w.export_aes k) ≡ k
  pub private_key : (a b : Bytes) → IsPair a b → (k : w.PrivateKey) × (w.import_private a ≡ some k)
  pub public_key : (a b : Bytes) → IsPair a b → (k : w.PublicKey) × (w.import_public b ≡ some k)
  pub agree :
      (a b c d : Bytes) (sk₁ sk₂ : w.PrivateKey) (pk₁ pk₂ : w.PublicKey)
      → IsPair a b
      → IsPair c d
      → w.import_private a ≡ some sk₁
      → w.import_public b ≡ some pk₁
      → w.import_private c ≡ some sk₂
      → w.import_public d ≡ some pk₂
      → w.derive_bits sk₁ pk₂ ≡ w.derive_bits sk₂ pk₁
  pub signed :
      (a b : Bytes) (sk : w.PrivateKey) (pk : w.PublicKey) (m : Bytes)
      → IsPair a b
      → w.import_private a ≡ some sk
      → w.import_public b ≡ some pk
      → w.ecdsa_verify pk (w.ecdsa_sign sk m) m ≡ true
  pub signature_length : (sk : w.PrivateKey) (m : Bytes) → length (w.ecdsa_sign sk m) ≡ 64

abbrev pub repeat : ℕ → ℕ → Bytes
repeat zero b = []
repeat (suc n) b = b ∷ repeat n b

-- A digit to the base 16, and its value.
unfoldable pub hex_digit : ℕ → ℕ
hex_digit n = if ltb n 10 then b'0' + n else b'a' + (n - 10)

unfoldable pub hex_value : ℕ → ℕ
hex_value c = if ltb c b'a' then c - b'0' else c - b'a' + 10

-- `b.toString(16).padStart(2, "0")`, one after the other
unfoldable pub bytes_to_hex : Bytes → Text
unfolding hex_digit
bytes_to_hex [] = []
bytes_to_hex (b ∷ bs) = hex_digit (b / 16) ∷ hex_digit (b % 16) ∷ bytes_to_hex bs

-- For lower-case hexadecimal digits; one that is left over is dropped.
unfoldable pub hex_to_bytes : Text → Bytes
unfolding hex_value
hex_to_bytes (a ∷ b ∷ hex) = (hex_value a * 16 + hex_value b) ∷ hex_to_bytes hex
hex_to_bytes _ = []

abbrev pub signed_version : ℕ
signed_version = 1

abbrev pub Verified : Type 0
Verified = Bytes × Bool

-- `data[0] === SIGNED_VERSION`
abbrev pub has_version : Bytes → Bool
has_version [] = false
has_version (b ∷ bs) = b == signed_version

module _ (w : WebCrypto) where
  -- `encrypt(data, key)` with the random vector that it draws
  unfoldable pub encrypt : Bytes → Bytes → w.CryptoKey → Bytes
  encrypt iv plain key = iv ++ w.aes_encrypt iv key plain

  unfoldable pub decrypt : Bytes → w.CryptoKey → Option Bytes
  decrypt cipher key = w.aes_decrypt (take 12 cipher) key (drop 12 cipher)

  pub record DerivedKeys : Type 0 where
    pub auth_hash : Text
    pub wrapping_key : w.CryptoKey

  -- `deriveKeys` (three iterations) and `deriveKeysLegacy` (two)
  unfoldable pub derive_with : ℕ → Text → Text → DerivedKeys
  unfolding hex_to_bytes bytes_to_hex trim
  derive_with iterations username passphrase =
      let salt = w.digest (w.encode (w.lower (trim username))) in
      let output = hex_to_bytes (w.argon2id passphrase salt iterations) in
      record {
        auth_hash = bytes_to_hex (w.digest (take 32 output));
        wrapping_key = w.import_aes (take 32 (drop 32 output));
      }

  unfoldable pub derive_keys : Text → Text → DerivedKeys
  unfolding derive_with
  derive_keys = derive_with 3

  unfoldable pub derive_keys_legacy : Text → Text → DerivedKeys
  unfolding derive_with
  derive_keys_legacy = derive_with 2

  unfoldable pub derive_user_id : Text → Text
  unfolding bytes_to_hex trim
  derive_user_id username =
      bytes_to_hex (w.digest (w.encode (codes "user_id:" ++ w.lower (trim username))))

  unfoldable pub wrap_key : Bytes → w.CryptoKey → w.CryptoKey → Bytes
  unfolding encrypt
  wrap_key iv master wrapping = encrypt iv (w.export_aes master) wrapping

  -- The master key of the random bytes, and its wrapped form.
  unfoldable pub generate_master_key : Bytes → Bytes → w.CryptoKey → w.CryptoKey × Bytes
  unfolding wrap_key
  generate_master_key raw iv wrapping = (w.import_aes raw, wrap_key iv (w.import_aes raw) wrapping)

  -- `rotateMasterKey`: the old key is not used.
  unfoldable pub rotate_master : Bytes → Bytes → w.CryptoKey → w.CryptoKey → w.CryptoKey × Bytes
  unfolding generate_master_key
  rotate_master raw iv old wrapping = generate_master_key raw iv wrapping

  unfoldable pub unwrap_master_key : Bytes → w.CryptoKey → Option w.CryptoKey
  unfolding decrypt
  unwrap_master_key wrapped wrapping = elim (decrypt wrapped wrapping) [
    | none ↦ none
    | some raw ↦ some (w.import_aes raw)
  ]

  unfoldable pub derive_shared_key : Bytes → Bytes → Option w.CryptoKey
  derive_shared_key private public = elim (w.import_private private) [
    | none ↦ none
    | some sk ↦ elim (w.import_public public) [
      | none ↦ none
      | some pk ↦
          some (w.hkdf (w.derive_bits sk pk) (repeat 32 0) (w.encode (codes "RecipePWA-vault-key")))
    ]
  ]

  unfoldable pub encrypt_book_key_for_user : Bytes → Bytes → Bytes → Bytes → Option Bytes
  unfolding derive_shared_key encrypt
  encrypt_book_key_for_user iv private public raw = elim (derive_shared_key private public) [
    | none ↦ none
    | some key ↦ some (encrypt iv raw key)
  ]

  unfoldable pub decrypt_book_key_from_user : Bytes → Bytes → Bytes → Option Bytes
  unfolding derive_shared_key decrypt
  decrypt_book_key_from_user private public encrypted = elim (derive_shared_key private public) [
    | none ↦ none
    | some key ↦ decrypt encrypted key
  ]

  unfoldable pub sign_payload : Bytes → Bytes → Option Bytes
  sign_payload plain private = elim (w.import_private private) [
    | none ↦ none
    | some sk ↦ some (signed_version ∷ (w.ecdsa_sign sk plain ++ plain))
  ]

  -- A payload in the old format, without a signature, is taken as it is.
  unfoldable pub verify_payload : Bytes → Option Bytes → Verified
  verify_payload payload public =
      if not (has_version payload) || ltb (length payload) 65
      then (payload, false)
      else elim public [
        | none ↦ (drop 65 payload, false)
        | some raw ↦ elim (w.import_public raw) [
          | none ↦ (drop 65 payload, false)
          | some pk ↦
              (drop 65 payload, w.ecdsa_verify pk (take 64 (drop 1 payload)) (drop 65 payload))
        ]
      ]

  -- The digits in groups of four.
  unfoldable pub groups : Text → Text
  groups (a ∷ b ∷ c ∷ d ∷ []) = a ∷ b ∷ c ∷ d ∷ []
  groups (a ∷ b ∷ c ∷ d ∷ rest) = a ∷ b ∷ c ∷ d ∷ b' ' ∷ groups rest
  groups _ = []

  unfoldable pub key_fingerprint : Bytes → Text
  unfolding groups bytes_to_hex
  key_fingerprint public = groups (take 16 (bytes_to_hex (w.digest public)))
