-- ===== src/Blobs/Format.antt =====
-- frontend/src/lib/blob-client.ts: the packed format of a blob.
use lunch_loxs.Prelude.{
  ℕ, zero, suc, ◌+◌, ◌<◌, ◌≡◌, refl, ap, ◌∙◌, true, [], ◌∷◌, ◌++◌, arith, drop, take, length,
  drop-append,
}
use lunch_loxs.Blobs.{
  Bytes, be32, from_be32, is_packed, meta_length, meta_part, blob_part, blob_meta_version,
}

abbrev pub packed : Bytes → Bytes → Bytes
packed m b = blob_meta_version ∷ (be32 (length m) ++ (m ++ b))

be32_lem : (n : ℕ) (s : Bytes) → n < 4294967296 → from_be32 (be32 n ++ s) ≡ n
unfolding be32 from_be32
be32_lem n s h = omega (arith, h)

meta_length-packed : (m b : Bytes) → length m < 4294967296 → meta_length (packed m b) ≡ length m
unfolding meta_length
meta_length-packed m b h = be32_lem (length m) (m ++ b) h

pub take-append : (m b : Bytes) → take (length m) (m ++ b) ≡ m
take-append [] b = refl
take-append (x ∷ m) b = ap (λ t. x ∷ t) (take-append m b)

pub meta_part-packed : (m b : Bytes) → length m < 4294967296 → meta_part (packed m b) ≡ m
unfolding meta_part be32
meta_part-packed m b h = ap (λ n. take n (m ++ b)) (meta_length-packed m b h) ∙ take-append m b

drop_nil : (n : ℕ) → ◌≡◌ {A = Bytes} [] (drop n [])
drop_nil zero = refl
drop_nil (suc n) = refl

drop_sucs : (n : ℕ) (s : Bytes) → drop (suc (suc (suc (suc (suc n))))) s ≡ drop n (drop 5 s)
drop_sucs n (a ∷ b ∷ c ∷ d ∷ e ∷ s) = refl
drop_sucs n [] = drop_nil n
drop_sucs n (a ∷ []) = drop_nil n
drop_sucs n (a ∷ b ∷ []) = drop_nil n
drop_sucs n (a ∷ b ∷ c ∷ []) = drop_nil n
drop_sucs n (a ∷ b ∷ c ∷ d ∷ []) = drop_nil n

drop_five : (n : ℕ) (s : Bytes) → drop (5 + n) s ≡ drop n (drop 5 s)
drop_five n s =
    let e : 5 + n ≡ suc (suc (suc (suc (suc n)))) = omega arith in
    ap (λ k. drop k s) e ∙ drop_sucs n s

pub blob_part-packed : (m b : Bytes) → length m < 4294967296 → blob_part (packed m b) ≡ b
unfolding blob_part be32
blob_part-packed m b h =
    ap (λ n. drop (5 + n) (packed m b)) (meta_length-packed m b h)
    ∙ drop_five (length m) (packed m b)
    ∙ drop-append m b

pub is_packed-packed : (m b : Bytes) → 0 < length (m ++ b) → is_packed (packed m b) ≡ true
unfolding is_packed be32
is_packed-packed m b h = ground (arith, h)
