-- ===== src/Storage/Flags.antt =====
-- The dirty flags of frontend/src/lib/automerge-store.ts: the scan of the keys against single reads,
-- and what a write of one key leaves alone.
use lunch_loxs.Prelude.{
  ◌≡◌, refl, true, false, not, ◌&&◌, ◌||◌, List, [], ◌∷◌, none, some, arith, ap, ℕ, ◌∙◌, Text,
  text_eq, text_eq_iff, starts_with, starts_with-append, starts_with_inv, drop, keep_if, map,
  if◌then◌else◌, is_some, Bool-cases, sym, inl, inr,
}
use lunch_loxs.Prelude.Sets.{has}
use lunch_loxs.Prelude.Maps
use lunch_loxs.Prelude.Maps.{get-remove, get-put}
use lunch_loxs.Storage.{
  Database, number, dirty_prefix, dirty_key, push_heads_key, seq_key, clear_dirty_flag,
  get_all_dirty_doc_ids, set_seq_flag,
}

-- A key with the prefix is the flag of `d` exactly if the rest of the key is `d`.
text_eq-drop :
    (k d : Text)
    → starts_with k dirty_prefix ≡ true
    → text_eq (drop 6 k) d ≡ text_eq k (dirty_key d)
unfolding text_eq
text_eq-drop k d h =
    let e = starts_with_inv k dirty_prefix h in sym (ap (λ t. text_eq t (dirty_key d)) e)

ne-dirty_key : (k d : Text) → starts_with k dirty_prefix ≡ false → text_eq k (dirty_key d) ≡ false
ne-dirty_key k d h = ground (arith, text_eq_iff k (dirty_key d), starts_with-append dirty_prefix d)

has-dirty_keys :
    (d : Text) (ks : List Text)
    → has d (map (λ k. drop 6 k) (keep_if (λ k. starts_with k dirty_prefix) ks))
      ≡ has (dirty_key d) ks
unfolding has
has-dirty_keys d [] = refl
has-dirty_keys d (k ∷ ks) = elim (Bool-cases (starts_with k dirty_prefix)) [
  | inl h ↦ rw (h, text_eq-drop k d h, has-dirty_keys d ks)
  | inr h ↦ rw (h, ne-dirty_key k d h, has-dirty_keys d ks)
]

module _ {Bytes : Type 0} (db : Database Bytes) where
  -- The scan of all keys finds a document exactly if a read of its dirty flag would find a record.
  pub has-get_all_dirty_doc_ids :
      (d : Text) → has d (get_all_dirty_doc_ids db) ≡ is_some (Maps.get (dirty_key d) db)
  unfolding get_all_dirty_doc_ids
  has-get_all_dirty_doc_ids d = has-dirty_keys d (Maps.keys db) ∙ Maps.has-keys (dirty_key d) db

  pub get-clear_dirty_flag :
      (d k : Text)
      → Maps.get k (clear_dirty_flag db d)
        ≡ (if text_eq (dirty_key d) k || text_eq (push_heads_key d) k then none else Maps.get k db)
  unfolding clear_dirty_flag
  get-clear_dirty_flag d k = ground (
    arith,
    get-remove (push_heads_key d) k (Maps.remove (dirty_key d) db),
    get-remove (dirty_key d) k db,
  )

  pub get-set_seq_flag :
      (d k : Text) (n : ℕ)
      → Maps.get k (set_seq_flag db d n)
        ≡ (if text_eq (seq_key d) k then some (number n) else Maps.get k db)
  unfolding set_seq_flag
  get-set_seq_flag d k n = get-put (seq_key d) k (number n) db

-- Clearing one document's flag takes that document out of the scan, and no other.
pub has-clear_dirty_flag :
    {Bytes : Type 0} (db : Database Bytes) (d e : Text)
    → has e (get_all_dirty_doc_ids (clear_dirty_flag db d))
      ≡ (not (text_eq d e) && has e (get_all_dirty_doc_ids db))
unfolding text_eq
has-clear_dirty_flag db d e = ground (
  arith,
  has-get_all_dirty_doc_ids (clear_dirty_flag db d) e,
  has-get_all_dirty_doc_ids db e,
  get-clear_dirty_flag db d (dirty_key e),
)

pub has-set_seq_flag :
    {Bytes : Type 0} (db : Database Bytes) (d e : Text) (n : ℕ)
    → has e (get_all_dirty_doc_ids (set_seq_flag db d n)) ≡ has e (get_all_dirty_doc_ids db)
unfolding text_eq
has-set_seq_flag db d e n = ground (
  arith,
  has-get_all_dirty_doc_ids (set_seq_flag db d n) e,
  has-get_all_dirty_doc_ids db e,
  get-set_seq_flag db d (dirty_key e) n,
)
