-- ===== src/Blobs/Flush.antt =====
-- frontend/src/lib/blob-client.ts: which blobs are still marked for upload after a flush.
use lunch_loxs.Prelude.{
  suc, ◌≡◌, refl, ◌∙◌, Bool, true, false, ◌&&◌, List, [], ◌∷◌, ◌++◌, none, some, arith, Text,
  text_eq, text_eq_iff, starts_with, drop, take, keep_if, All, index_of, Option-cases, Bool-cases,
  inl, inr, if◌then◌else◌,
}
use lunch_loxs.Prelude.Maps
use lunch_loxs.Prelude.Maps.{get-remove}
use lunch_loxs.Prelude.Sets.{has, has-keep_if}
use lunch_loxs.Blobs.{
  Services, Blobs, BlobStore, dirty_prefix, blob_prefix, get_blob, flush_one, flush_all,
  flush_dirty_blobs, idb_delete,
}

module _ (v : Services) where
  -- The flag at this key is taken away by a flush: the blob is gone, or its upload succeeds.
  unfoldable pub is_flushed : Text → BlobStore → Bool
  unfolding get_blob
  is_flushed dirty_key db =
      let key = drop 10 dirty_key in
      elim (index_of b'/' key) [
        | none ↦ false
        | some slash ↦ elim (get_blob key db) [
          | none ↦ true
          | some b ↦ v.upload (take slash key) (drop (suc slash) key) b
        ]
      ]

  flush_one_lem :
      (dirty_key : Text) (s : Blobs)
      → flush_one v dirty_key s ≡ (if is_flushed dirty_key s.db then idb_delete dirty_key s else s)
  unfolding flush_one is_flushed
  flush_one_lem dirty_key s = elim (Option-cases (index_of b'/' (drop 10 dirty_key))) [
    | inl e ↦ ground (arith, e)
    | inr (slash, e) ↦ elim (Option-cases (get_blob (drop 10 dirty_key) s.db)) [
      | inl f ↦ ground (arith, e, f)
      | inr (b, f) ↦ ground (arith, e, f)
    ]
  ]

  get-flush_one :
      (j k : Text) (s : Blobs)
      → Maps.get k (flush_one v j s).db
        ≡ (if text_eq j k && is_flushed j s.db then none else Maps.get k s.db)
  get-flush_one j k s = ground (arith, flush_one_lem j s, get-remove j k s.db)

  -- Flags are not blobs.
  no_flag : (key : Text) → starts_with (blob_prefix ++ key) dirty_prefix ≡ false
  unfolding starts_with
  no_flag key = refl

  ne-blob :
      (j key : Text) → starts_with j dirty_prefix ≡ true → text_eq j (blob_prefix ++ key) ≡ false
  unfolding text_eq
  ne-blob j key h = ground (arith, text_eq_iff j (blob_prefix ++ key), no_flag key, h)

  get_blob_same :
      (key : Text) (db db' : BlobStore)
      → Maps.get (blob_prefix ++ key) db ≡ Maps.get (blob_prefix ++ key) db'
      → get_blob key db ≡ get_blob key db'
  unfolding get_blob
  get_blob_same key db db' e = rw (get_blob, e) refl

  is_flushed_same :
      (k : Text) (db db' : BlobStore)
      → get_blob (drop 10 k) db ≡ get_blob (drop 10 k) db'
      → is_flushed k db ≡ is_flushed k db'
  unfolding is_flushed
  is_flushed_same k db db' e = elim (Option-cases (index_of b'/' (drop 10 k))) [
    | inl f ↦ rw (is_flushed, f) refl
    | inr (slash, f) ↦ rw (is_flushed, f, e) refl
  ]

  is_flushed-flush_one :
      (j k : Text) (s : Blobs)
      → starts_with j dirty_prefix ≡ true
      → is_flushed k (flush_one v j s).db ≡ is_flushed k s.db
  is_flushed-flush_one j k s h =
      let key = drop 10 k in
      is_flushed_same k (flush_one v j s).db s.db (
        get_blob_same key (flush_one v j s).db s.db
          (get-flush_one j (blob_prefix ++ key) s ∙ rw (ne-blob j key h) refl))

  get-flush_all :
      (ks : List Text) (k : Text) (s : Blobs)
      → All (λ j. starts_with j dirty_prefix ≡ true) ks
      → Maps.get k (flush_all v ks s).db
        ≡ (if has k ks && is_flushed k s.db then none else Maps.get k s.db)
  unfolding flush_all has
  get-flush_all [] k s h = refl
  get-flush_all (j ∷ ks) k s (h, hs) = ground (
    arith,
    get-flush_all ks k (flush_one v j s) hs,
    get-flush_one j k s,
    is_flushed-flush_one j k s h,
    text_eq_iff j k,
  )

  All-kept :
      (ks : List Text)
      → All (λ j. starts_with j dirty_prefix ≡ true) (keep_if (λ j. starts_with j dirty_prefix) ks)
  All-kept [] = tt
  All-kept (k ∷ ks) = elim (Bool-cases (starts_with k dirty_prefix)) [
    | inl e ↦ rw e (e, All-kept ks)
    | inr e ↦ rw e (All-kept ks)
  ]

  -- A flush takes away exactly the flags of blobs whose data are missing or whose upload succeeds,
  -- and leaves every other record as it is; a flag whose upload fails is kept for the next flush.
  pub get-flush_dirty_blobs :
      (k : Text) (s : Blobs)
      → Maps.get k (flush_dirty_blobs v s).db
        ≡ (if starts_with k dirty_prefix && is_flushed k s.db then none else Maps.get k s.db)
  unfolding flush_dirty_blobs
  get-flush_dirty_blobs k s =
      let flags = keep_if (λ j. starts_with j dirty_prefix) (Maps.keys s.db) in
      ground (
        arith,
        get-flush_all flags k s (All-kept (Maps.keys s.db)),
        Maps.has-keys k s.db,
        has-keep_if (λ j. starts_with j dirty_prefix) k (Maps.keys s.db),
      )
