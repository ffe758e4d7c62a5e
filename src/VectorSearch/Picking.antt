-- ===== src/VectorSearch/Picking.antt =====
-- frontend/src/lib/vector-search.ts: what goes on after an `await` is one of those that wait. Rules for
-- predicates on the state that the events keep.
use lunch_loxs.Prelude.{
  ℕ, suc, ◌≡◌, sym, ap, ◌∙◌, ◌==◌, Bool-cases, true, false, List, [], ◌∷◌, Option, some, Text,
  length, arith, Bool, Option-cases, inl, inr,
}
use lunch_loxs.VectorSearch.{Documents, Content, Run, Waiting, State}
use lunch_loxs.VectorSearch.Running.{go_on}
use lunch_loxs.VectorSearch.Calls.{
  Answer, answer_run, answer_call, settle_message, is_in, pick, run_waits, call_waits, Event, step,
  continue_call,
}

pub length-pick {ℓ} :
    {A : Type ℓ} (p : A → Bool) (xs : List A) (y : A) (ys : List A)
    → pick p xs ≡ some (y, ys)
    → length xs ≡ suc (length ys)
length-pick p [] y ys e = cc
length-pick p (x ∷ xs) y ys e = elim (Option-cases (pick p xs)) [
  | inl n ↦ ground (arith, n, e)
  | inr ((z, zs), n) ↦ ground (arith, n, e, length-pick p xs z zs n)
]

module _ (P : State → Type 0) (s : State) where
  pub settle_message_rule :
      (id : ℕ) (a : Answer) (docs : Option Documents) (vs : List Text)
      → ((r : Run) (rs : List Run)
          → pick (run_waits id) s.runs ≡ some (r, rs)
          → P (answer_run a r (record s { runs = rs })))
      → ((c : Waiting) (cs : List Waiting) → P (answer_call a docs vs c (record s { calls = cs })))
      → P s
      → P (settle_message id a docs vs s)
  unfolding settle_message
  settle_message_rule id a docs vs on_run on_call h =
      elim (Option-cases (pick (run_waits id) s.runs)) [
        | inr ((r, rs), e) ↦ rw (settle_message, e) (on_run r rs e)
        | inl e ↦ elim (Option-cases (pick (call_waits id) s.calls)) [
          | inr ((c, cs), f) ↦ rw (settle_message, e, f) (on_call c cs)
          | inl f ↦ rw (settle_message, e, f) h
        ]
      ]

  pub goes_on_rule :
      (p : Run → Bool) (d : Documents) (o : Option Content)
      → ((r : Run) (rs : List Run)
          → pick p s.runs ≡ some (r, rs)
          → P (go_on d o r (record s { runs = rs })))
      → P s
      → P (step (Event.goes_on p d o) s)
  unfolding step
  goes_on_rule p d o on_run h = elim (Option-cases (pick p s.runs)) [
    | inr ((r, rs), e) ↦ rw (step, e) (on_run r rs e)
    | inl e ↦ rw (step, e) h
  ]

  pub continues_rule :
      (p : Waiting → Bool) (docs : Option Documents) (vs : List Text)
      → ((c : Waiting) (cs : List Waiting) → P (continue_call docs vs c (record s { calls = cs })))
      → P s
      → P (step (Event.continues p docs vs) s)
  unfolding step
  continues_rule p docs vs on_call h = elim (Option-cases (pick p s.calls)) [
    | inr ((c, cs), e) ↦ rw (step, e) (on_call c cs)
    | inl e ↦ rw (step, e) h
  ]

-- From a list of one, only that one is picked.
pub pick_single {ℓ} :
    {A : Type ℓ} (p : A → Bool) (xs : List A) (x y : A) (ys : List A)
    → xs ≡ x ∷ []
    → pick p xs ≡ some (y, ys)
    → (y ≡ x) × (ys ≡ [])
pick_single p xs x y ys h e =
    let e' = ap (λ l. pick p l) (sym h) ∙ e in
    elim (Bool-cases (p x)) [ inl t ↦ ground (arith, t, e') | inr f ↦ ground (arith, f, e') ]

-- A number that is listed is not one that is not.
pub differs :
    (j id : ℕ) (ids : List ℕ) → is_in j ids ≡ true → is_in id ids ≡ false → (j == id) ≡ false
differs j id [] h n = cc
differs j id (i ∷ ids) h n = ground (arith, differs j id ids)
