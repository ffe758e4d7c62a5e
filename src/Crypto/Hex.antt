-- ===== src/Crypto/Hex.antt =====
-- frontend/src/lib/crypto.ts: bytes as hexadecimal digits.
use lunch_loxs.Prelude.{ℕ, ◌+◌, ◌*◌, ◌<◌, ◌≡◌, refl, [], ◌∷◌, arith, All}
use Prim.Native.Nat.{◌/◌, ◌%◌}
use lunch_loxs.Crypto.{Bytes, hex_digit, hex_value, bytes_to_hex, hex_to_bytes}

hex_value-digit : (n : ℕ) → n < 16 → hex_value (hex_digit n) ≡ n
unfolding hex_value hex_digit
hex_value-digit n h = ground (arith, h)

byte_lem :
    (b : ℕ) → b < 256 → hex_value (hex_digit (b / 16)) * 16 + hex_value (hex_digit (b % 16)) ≡ b
byte_lem b h = omega (arith, hex_value-digit (b / 16), hex_value-digit (b % 16))

-- Bytes that are spelled in hexadecimal digits are read back.
pub hex_to_bytes-bytes_to_hex :
    (bs : Bytes) → All (λ b. b < 256) bs → hex_to_bytes (bytes_to_hex bs) ≡ bs
unfolding bytes_to_hex hex_to_bytes
hex_to_bytes-bytes_to_hex [] h = refl
hex_to_bytes-bytes_to_hex (b ∷ bs) (h, hs) =
    ground (arith, byte_lem b h, hex_to_bytes-bytes_to_hex bs hs)
