-- ===== src/VectorSearch/Tracked.antt =====
-- frontend/src/lib/vector-search.ts: the queue, its set of keys and the totals stay in step.
use lunch_loxs.Prelude.{
  ℕ, zero, suc, ◌+◌, ◌≤◌, ◌≡◌, refl, sym, ap, subst, ◌∙◌, Bool, true, false, ◌||◌, List, [], ◌∷◌,
  ◌++◌, map, Text, length, take, drop, arith, text_eq, text_eq_iff, Bool-cases, inl, inr,
  length-append,
}
use lunch_loxs.Prelude.Sets.{
  TextSet, has, add, remove, IsDistinct, has-add, has-remove, has-append, IsDistinct-snoc,
}
use lunch_loxs.VectorSearch.{Item, State, item_key}
use lunch_loxs.VectorSearch.Running.{remove_all}

abbrev pub keys : List Item → List Text
keys q = map item_key q

-- The set holds the keys of the queue, none of which occurs twice; what was processed and what waits
-- is no more than what was queued; and nothing waits when the work is complete.
pub record IsInStep (q : List Item) (ks : TextSet) (queued processed : ℕ) (complete : Bool)
    : Type 0 where
  pub listed : (k : Text) → has k ks ≡ has k (keys q)
  pub distinct : IsDistinct (keys q)
  pub counted : processed + length q ≤ queued
  pub idle : complete ≡ true → q ≡ []

abbrev pub IsTracked : State → Type 0
IsTracked s = IsInStep s.queue s.queue_set s.total_queued s.total_processed s.indexing_complete

pub empty-IsInStep : (n p : ℕ) (c : Bool) → p ≤ n → IsInStep [] [] n p c
unfolding has
empty-IsInStep n p c h = record {
  listed = λ k. refl;
  distinct = tt;
  counted = omega (arith, h);
  idle = λ _. refl;
}

-- An item that is not listed joins in front or at the end.
pub push-IsInStep :
    (i : Item) (q : List Item) (ks : TextSet) (n p : ℕ) (c : Bool)
    → IsInStep q ks n p c
    → has (item_key i) ks ≡ false
    → IsInStep (i ∷ q) (add (item_key i) ks) (suc n) p false
unfolding has
push-IsInStep i q ks n p c h new = record {
  listed = λ k. has-add (item_key i) k ks ∙ ap (λ b. text_eq (item_key i) k || b) (h.listed k);
  distinct = (sym (h.listed (item_key i)) ∙ new, h.distinct);
  counted = omega (arith, h.counted);
  idle = λ e. cc;
}

keys-append : (q : List Item) (i : Item) → keys (q ++ i ∷ []) ≡ keys q ++ item_key i ∷ []
keys-append [] i = refl
keys-append (j ∷ q) i = ap (λ ks. item_key j ∷ ks) (keys-append q i)

pub append-IsInStep :
    (i : Item) (q : List Item) (ks : TextSet) (n p : ℕ) (c : Bool)
    → IsInStep q ks n p c
    → has (item_key i) ks ≡ false
    → IsInStep (q ++ i ∷ []) (add (item_key i) ks) (suc n) p false
unfolding has
append-IsInStep i q ks n p c h new = record {
  listed = λ k. ground (
    arith,
    has-add (item_key i) k ks,
    h.listed k,
    ap (has k) (keys-append q i),
    has-append k (keys q) (item_key i ∷ []),
  );
  distinct =
      rw (keys-append q i)
        (IsDistinct-snoc (item_key i) (keys q) h.distinct (sym (h.listed (item_key i)) ∙ new));
  counted = omega (arith, h.counted, length-append q (i ∷ []));
  idle = λ e. cc;
}

-- One item less at the front.
pop-IsInStep :
    (i : Item) (q : List Item) (ks : TextSet) (n p : ℕ) (c : Bool)
    → IsInStep (i ∷ q) ks n p c
    → IsInStep q (remove (item_key i) ks) n (suc p) false
unfolding has
pop-IsInStep i q ks n p c h = record {
  listed = λ k. elim (Bool-cases (text_eq (item_key i) k)) [
    | inl e ↦
        ground (arith, e, has-remove (item_key i) k ks, h.distinct.0, text_eq_iff (item_key i) k)
    | inr e ↦ ground (arith, e, has-remove (item_key i) k ks, h.listed k)
  ];
  distinct = h.distinct.1;
  counted = omega (arith, h.counted);
  idle = λ e. cc;
}

pub take-IsInStep :
    (m : ℕ) (q : List Item) (ks : TextSet) (n p : ℕ)
    → IsInStep q ks n p false
    → IsInStep (drop m q) (remove_all (take m q) ks) n (p + length (take m q)) false
unfolding remove_all
take-IsInStep zero q ks n p h = subst (λ t. IsInStep q ks n t false) (omega arith) h
take-IsInStep (suc m) [] ks n p h = subst (λ t. IsInStep [] ks n t false) (omega arith) h
take-IsInStep (suc m) (i ∷ q) ks n p h =
    let rest =
      take-IsInStep m q (remove (item_key i) ks) n (suc p) (pop-IsInStep i q ks n p false h) in
    subst (λ t. IsInStep (drop m q) (remove_all (take m q) (remove (item_key i) ks)) n t false)
      (omega arith) rest
