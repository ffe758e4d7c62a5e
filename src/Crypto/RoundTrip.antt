-- ===== src/Crypto/RoundTrip.antt =====
-- frontend/src/lib/crypto.ts: what is encrypted, wrapped, shared or signed is read back.
use lunch_loxs.Prelude.{
  ℕ, ◌≡◌, sym, ap, ◌∙◌, true, false, ◌∷◌, ◌++◌, none, some, arith, length, take, drop,
  length-append, ltb, codes, drop-append,
}
use lunch_loxs.Blobs.Format.{take-append}
use lunch_loxs.Crypto.{
  Bytes, WebCrypto, LawfulCrypto, encrypt, decrypt, wrap_key, generate_master_key, rotate_master,
  unwrap_master_key, derive_shared_key, encrypt_book_key_for_user, decrypt_book_key_from_user,
  sign_payload, verify_payload, signed_version, repeat,
}

module _ (w : WebCrypto) (lawful : LawfulCrypto w) where
  drop_front : (iv bs : Bytes) (n : ℕ) → length iv ≡ n → drop n (iv ++ bs) ≡ bs
  drop_front iv bs n e = ap (λ m. drop m (iv ++ bs)) (sym e) ∙ drop-append iv bs

  take_front : (iv bs : Bytes) (n : ℕ) → length iv ≡ n → take n (iv ++ bs) ≡ iv
  take_front iv bs n e = ap (λ m. take m (iv ++ bs)) (sym e) ∙ take-append iv bs

  -- What was encrypted with a vector of 12 bytes is decrypted with the same key.
  pub decrypt-encrypt :
      (iv plain : Bytes) (key : w.CryptoKey)
      → length iv ≡ 12
      → decrypt w (encrypt w iv plain key) key ≡ some plain
  unfolding decrypt encrypt
  decrypt-encrypt iv plain key e =
      let c = w.aes_encrypt iv key plain in
      ap (λ v. w.aes_decrypt v key (drop 12 (iv ++ c))) (take_front iv c 12 e)
      ∙ ap (w.aes_decrypt iv key) (drop_front iv c 12 e)
      ∙ lawful.aes iv key plain

  -- A change of the password: the new master key is not the old one but the one that was drawn, and it
  -- is unwrapped with the new wrapping key.
  pub unwrap-rotate_master :
      (raw iv : Bytes) (old wrapping : w.CryptoKey)
      → length iv ≡ 12
      → unwrap_master_key w (rotate_master w raw iv old wrapping).1 wrapping
        ≡ some (rotate_master w raw iv old wrapping).0
  unfolding unwrap_master_key rotate_master generate_master_key wrap_key
  unwrap-rotate_master raw iv old wrapping e =
      let key = w.import_aes raw in
      ground (arith, decrypt-encrypt iv (w.export_aes key) wrapping e, lawful.import-export key)

  -- A book key that one user encrypts for another is decrypted by the other, with the public key of
  -- the sender.
  pub decrypt-encrypt_book_key :
      (iv raw a b c d : Bytes)
      → length iv ≡ 12
      → lawful.IsPair a b
      → lawful.IsPair c d
      → (e : Bytes) × (encrypt_book_key_for_user w iv a d raw ≡ some e)
        × (decrypt_book_key_from_user w c b e ≡ some raw)
  unfolding encrypt_book_key_for_user decrypt_book_key_from_user derive_shared_key
  decrypt-encrypt_book_key iv raw a b c d len ab cd =
      let (sk₁, e₁) = lawful.private_key a b ab in
      let (pk₁, f₁) = lawful.public_key a b ab in
      let (sk₂, e₂) = lawful.private_key c d cd in
      let (pk₂, f₂) = lawful.public_key c d cd in
      let same = lawful.agree a b c d sk₁ sk₂ pk₁ pk₂ ab cd e₁ f₁ e₂ f₂ in
      let key =
        w.hkdf (w.derive_bits sk₁ pk₂) (repeat 32 0) (w.encode (codes "RecipePWA-vault-key")) in
      (
        encrypt w iv raw key,
        ground (arith, e₁, f₂),
        ground (arith, e₂, f₁, same, decrypt-encrypt iv raw key len),
      )

  -- A payload that was signed is verified with the public key, and gives what was signed; without a
  -- public key it gives the same, unverified.
  pub verify-sign_payload :
      (plain a b : Bytes)
      → lawful.IsPair a b
      → (s : Bytes) × (sign_payload w plain a ≡ some s)
        × (verify_payload w s (some b) ≡ (plain, true))
        × (verify_payload w s none ≡ (plain, false))
  unfolding sign_payload verify_payload
  verify-sign_payload plain a b ab =
      let (sk, e) = lawful.private_key a b ab in
      let (pk, f) = lawful.public_key a b ab in
      let sig = w.ecdsa_sign sk plain in
      let long : ltb (length (signed_version ∷ (sig ++ plain))) 65 ≡ false =
        ground (arith, length-append sig plain, lawful.signature_length sk plain) in
      let front = take_front sig plain 64 (lawful.signature_length sk plain) in
      let back = drop_front sig plain 64 (lawful.signature_length sk plain) in
      (
        signed_version ∷ (sig ++ plain),
        ground (arith, e),
        ground (arith, f, long, front, back, lawful.signed a b sk pk plain ab e f),
        ground (arith, long, back),
      )
