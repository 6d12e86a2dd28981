-- ===== src/Base/Deletes.antt =====
-- Deleting rows of a table: what is left, and what a query of the rest finds.
use mathlib.Core.Path.{◌≡◌, refl, subst, ap}
use mathlib.Core.Logic.{inl, inr, ◌⊎◌}
use mathlib.Core.Bool.{Bool, true, false}
use mathlib.Core.Option.{none}
use mathlib.Core.List.{List, [], ◌∷◌}
use mail_sync_portal.Base.Tests.{Bool-cases, of_if}
use mail_sync_portal.Base.Lists.{All, In, Distinct, first, delete_where, update_where}

pub All-delete_where {κ} :
    {A : Type 0} (P : A → Type κ) (p : A → Bool) (xs : List A)
    → All P xs
    → All P (delete_where p xs)
unfolding delete_where
All-delete_where P p [] h = tt
All-delete_where P p (x ∷ xs) h = elim (Bool-cases (p x)) [
  | inl e ↦ rw e (All-delete_where P p xs h.1)
  | inr e ↦ rw e (h.0, All-delete_where P p xs h.1)
]

pub Distinct-delete_where :
    {A : Type 0} (same : A → A → Bool) (p : A → Bool) (xs : List A)
    → Distinct same xs
    → Distinct same (delete_where p xs)
unfolding delete_where
Distinct-delete_where same p [] d = tt
Distinct-delete_where same p (x ∷ xs) d = elim (Bool-cases (p x)) [
  | inl e ↦ rw e (Distinct-delete_where same p xs d.1)
  | inr e ↦
      rw e (All-delete_where (λ y. same x y ≡ false) p xs d.0, Distinct-delete_where same p xs d.1)
]

module _ {A : Type 0} where
  -- No row that passes the test is left.
  pub All-deleted : (p : A → Bool) (xs : List A) → All (λ x. p x ≡ false) (delete_where p xs)
  unfolding delete_where
  All-deleted p [] = tt
  All-deleted p (x ∷ xs) = elim (Bool-cases (p x)) [
    | inl e ↦ rw e (All-deleted p xs)
    | inr e ↦ rw e (e, All-deleted p xs)
  ]

  pub first-deleted : (p : A → Bool) (xs : List A) → first p (delete_where p xs) ≡ none
  unfolding first delete_where
  first-deleted p [] = refl
  first-deleted p (x ∷ xs) = elim (Bool-cases (p x)) [
    | inl e ↦ rw e (first-deleted p xs)
    | inr e ↦ rw (e, e) (first-deleted p xs)
  ]

  -- A query that passes no deleted row finds the same row.
  pub first-delete_apart :
      (p q : A → Bool) (xs : List A)
      → ((a : A) → p a ≡ true → q a ≡ false)
      → first p (delete_where q xs) ≡ first p xs
  unfolding first delete_where
  first-delete_apart p q [] apart = refl
  first-delete_apart p q (a ∷ xs) apart = elim (Bool-cases (p a)) [
    | inl h ↦ rw (apart a h, h) refl
    | inr h ↦ elim (Bool-cases (q a)) [
      | inl g ↦ rw (g, h) (first-delete_apart p q xs apart)
      | inr g ↦ rw (g, h) (first-delete_apart p q xs apart)
    ]
  ]

module _ {A : Type 0} where
  pub In-delete_where :
      (p : A → Bool) (xs : List A) (x : A) → In x xs → p x ≡ false → In x (delete_where p xs)
  unfolding delete_where
  In-delete_where p [] x i e = i
  In-delete_where p (y ∷ ys) x (inl h) e = rw (subst (λ z. p z ≡ false) h e) (inl h)
  In-delete_where p (y ∷ ys) x (inr i) e =
      of_if (In x) (p y) (In-delete_where p ys x i e) (inr (In-delete_where p ys x i e))

  pub In-of_delete : (p : A → Bool) (xs : List A) (x : A) → In x (delete_where p xs) → In x xs
  unfolding delete_where
  In-of_delete p [] x = λ i. i
  In-of_delete p (y ∷ ys) x =
      of_if (λ l. In x l → In x (y ∷ ys)) (p y) (λ i. inr (In-of_delete p ys x i))
        (λ i. elim i [ inl h ↦ inl h | inr j ↦ inr (In-of_delete p ys x j) ])

  -- An updated row is there as it was or as it is changed.
  pub In-update_where :
      (p : A → Bool) (f : A → A) (xs : List A) (x : A)
      → In x xs
      → In x (update_where p f xs) ⊎ In (f x) (update_where p f xs)
  unfolding update_where
  In-update_where p f [] x i = elim i [ ]
  In-update_where p f (y ∷ ys) x (inl h) = elim (Bool-cases (p y)) [
    | inl e ↦ inr (inl (rw e (ap f h)))
    | inr e ↦ inl (inl (rw e h))
  ]
  In-update_where p f (y ∷ ys) x (inr i) = elim (In-update_where p f ys x i) [
    | inl j ↦ inl (inr j)
    | inr j ↦ inr (inr j)
  ]
