-- ===== src/Base/Lists.antt =====
-- Rows of a table as a list: the queries and updates of the program, and their laws.
use Prim.Native.Nat.{ℕ, zero, suc, ◌+◌}
use mathlib.Core.Path.{◌≡◌, refl, sym, subst, ap, ◌∙◌}
use mathlib.Core.Logic.{◌⊎◌, inl, inr}
use mathlib.Core.Bool.{Bool, true, false, ◌||◌, ◌&&◌, false≢true}
use mathlib.Core.Option.{Option, none, some}
use mathlib.Core.List.{List, [], ◌∷◌, ◌++◌}
use native.Mathlib.Omega.{arith}
use mail_sync_portal.Base.Tests.{if◌then◌else◌, Bool-cases, some_eq}

-- A predicate of every element, and of some element, by recursion.
abbrev pub All {ℓ κ} : {A : Type ℓ} → (A → Type κ) → List A → Type κ
All P [] = Unit
All P (x ∷ xs) = P x × All P xs

abbrev pub In : {A : Type 0} → A → List A → Type 0
In a [] = ⊥
In a (x ∷ xs) = (a ≡ x) ⊎ In a xs

module _ {ℓ} {A : Type ℓ} where
  abbrev pub length : List A → ℕ
  length [] = 0
  length (x ∷ xs) = suc (length xs)

  abbrev pub take : ℕ → List A → List A
  take zero xs = []
  take (suc n) [] = []
  take (suc n) (x ∷ xs) = x ∷ take n xs

  -- SELECT … WHERE p
  unfoldable pub select : (A → Bool) → List A → List A
  select p [] = []
  select p (x ∷ xs) = if p x then x ∷ select p xs else select p xs

  -- SELECT … WHERE p LIMIT 1
  unfoldable pub first : (A → Bool) → List A → Option A
  first p [] = none
  first p (x ∷ xs) = if p x then some x else first p xs

  unfoldable pub any : (A → Bool) → List A → Bool
  any p [] = false
  any p (x ∷ xs) = p x || any p xs

  unfoldable pub all : (A → Bool) → List A → Bool
  all p [] = true
  all p (x ∷ xs) = p x && all p xs

  -- SELECT count(*) … WHERE p
  unfoldable pub count_where : (A → Bool) → List A → ℕ
  count_where p [] = 0
  count_where p (x ∷ xs) = let n = count_where p xs in if p x then suc n else n

  -- UPDATE … SET f WHERE p
  unfoldable pub update_where : (A → Bool) → (A → A) → List A → List A
  update_where p f [] = []
  update_where p f (x ∷ xs) = (if p x then f x else x) ∷ update_where p f xs

  -- DELETE … WHERE p
  unfoldable pub delete_where : (A → Bool) → List A → List A
  delete_where p [] = []
  delete_where p (x ∷ xs) = if p x then delete_where p xs else x ∷ delete_where p xs

module _ {ℓ} {A : Type ℓ} where
  pub length-append : (xs ys : List A) → length (xs ++ ys) ≡ length xs + length ys
  length-append [] ys = omega arith
  length-append (x ∷ xs) ys = omega (arith, length-append xs ys)

  pub select-All : (p : A → Bool) (xs : List A) → All (λ x. p x ≡ true) (select p xs)
  unfolding select
  select-All p [] = tt
  select-All p (x ∷ xs) = elim (Bool-cases (p x)) [
    | inl h ↦ rw h (h, select-All p xs)
    | inr h ↦ rw h (select-All p xs)
  ]

  pub any-append : (p : A → Bool) (xs ys : List A) → any p (xs ++ ys) ≡ any p xs || any p ys
  unfolding any
  any-append p [] ys = refl
  any-append p (x ∷ xs) ys = elim (Bool-cases (p x)) [
    | inl e ↦ rw e refl
    | inr e ↦ rw e (any-append p xs ys)
  ]

  pub any-false : (p : A → Bool) (xs : List A) → any p xs ≡ false → All (λ x. p x ≡ false) xs
  unfolding any
  any-false p [] e = tt
  any-false p (x ∷ xs) e = elim (Bool-cases (p x)) [
    | inl h ↦ (let bad : true ≡ false = (rw h at e) in absurd (false≢true (sym bad)))
    | inr h ↦ (h, any-false p xs (rw h at e))
  ]

  -- the second, where the first is None
  abbrev pub or_first : Option A → Option A → Option A
  or_first none o = o
  or_first (some a) o = some a

  pub first-append :
      (p : A → Bool) (xs ys : List A) → first p (xs ++ ys) ≡ or_first (first p xs) (first p ys)
  unfolding first
  first-append p [] ys = refl
  first-append p (x ∷ xs) ys = elim (Bool-cases (p x)) [
    | inl e ↦ rw e refl
    | inr e ↦ rw e (first-append p xs ys)
  ]

p_if {ℓ} :
    {A : Type ℓ} (p q : A → Bool) (f : A → A) (a : A)
    → ((a : A) → p (f a) ≡ p a)
    → p (if q a then f a else a) ≡ p a
p_if p q f a keep = elim (Bool-cases (q a)) [ inl h ↦ rw h (keep a) | inr h ↦ rw h refl ]

module _ {ℓ} {A : Type ℓ} where
  -- A row that the test finds is found again when it is appended, or when an update that the test
  -- does not see changes it.
  pub first-append_new :
      (p : A → Bool) (xs : List A) (x : A)
      → first p xs ≡ none
      → p x ≡ true
      → first p (xs ++ x ∷ []) ≡ some x
  first-append_new p xs x e h = rw (first-append p xs (x ∷ []), e) (unfold first in rw h refl)

  pub first-update_where :
      (p q : A → Bool) (f : A → A) (xs : List A) (x : A)
      → ((a : A) → p (f a) ≡ p a)
      → first p xs ≡ some x
      → first p (update_where q f xs) ≡ some (if q x then f x else x)
  unfolding first update_where
  first-update_where p q f [] x keep e = absurd (ground arith)
  first-update_where p q f (a ∷ xs) x keep e = elim (Bool-cases (p a)) [
    | inl h ↦
        let same : a ≡ x = some_eq a x (rw h at e) in
        rw (p_if p q f a keep, h) (ap (λ b. some (if q b then f b else b)) same)
    | inr h ↦ rw (p_if p q f a keep, h) (first-update_where p q f xs x keep (rw h at e))
  ]

pub All-trivial {ℓ} : {A : Type ℓ} (xs : List A) → All (λ _. Unit {0}) xs
All-trivial [] = tt
All-trivial (x ∷ xs) = (tt, All-trivial xs)

pub All-snoc {ℓ κ} :
    {A : Type ℓ} (P : A → Type κ) (xs : List A) (y : A) → All P xs → P y → All P (xs ++ y ∷ [])
All-snoc P [] y h p = (p, tt)
All-snoc P (x ∷ xs) y h p = (h.0, All-snoc P xs y h.1 p)

pub first-none {ℓ} :
    {A : Type ℓ} (p : A → Bool) (xs : List A) → first p xs ≡ none → All (λ x. p x ≡ false) xs
unfolding first
first-none p [] e = tt
first-none p (x ∷ xs) e = elim (Bool-cases (p x)) [
  | inl h ↦ (let bad : some x ≡ none = (rw h at e) in absurd (ground arith))
  | inr h ↦ (h, first-none p xs (rw h at e))
]

-- An update of the rows that pass a test takes one predicate to another.
pub All-update {ℓ κ} :
    {A : Type ℓ} (P Q : A → Type κ) (p : A → Bool) (f : A → A) (xs : List A)
    → ((a : A) → p a ≡ true → P a → Q (f a))
    → ((a : A) → p a ≡ false → P a → Q a)
    → All P xs
    → All Q (update_where p f xs)
unfolding update_where
All-update P Q p f [] hit miss h = tt
All-update P Q p f (x ∷ xs) hit miss h = elim (Bool-cases (p x)) [
  | inl e ↦ rw e (hit x e h.0, All-update P Q p f xs hit miss h.1)
  | inr e ↦ rw e (miss x e h.0, All-update P Q p f xs hit miss h.1)
]

-- No two rows are the same by `same`.
abbrev pub Distinct {ℓ} : {A : Type ℓ} → (A → A → Bool) → List A → Type 0
Distinct same [] = Unit
Distinct same (x ∷ xs) = All (λ y. same x y ≡ false) xs × Distinct same xs

module _ {A : Type 0} (same : A → A → Bool) where
  pub Distinct-append :
      (xs : List A) (y : A)
      → All (λ x. same x y ≡ false) xs
      → Distinct same xs
      → Distinct same (xs ++ y ∷ [])
  Distinct-append [] y h d = (tt, tt)
  Distinct-append (x ∷ xs) y h d =
      (All-snoc (λ z. same x z ≡ false) xs y d.0 h.0, Distinct-append xs y h.1 d.1)

  -- An update that `same` does not see keeps the rows distinct.
  pub Distinct-update_where :
      (q : A → Bool) (f : A → A)
      → ((a b : A) → same (f a) b ≡ same a b)
      → ((a b : A) → same a (f b) ≡ same a b)
      → (xs : List A) → Distinct same xs
      → Distinct same (update_where q f xs)
  unfolding update_where
  Distinct-update_where q f left right [] d = tt
  Distinct-update_where q f left right (x ∷ xs) d = (
    All-update (λ y. same x y ≡ false) (λ y. same (if q x then f x else x) y ≡ false) q f xs
        (λ y e h. rw (p_if (λ z. same z (f y)) q f x (λ z. left z (f y)), right x y) h)
        (λ y e h. rw (p_if (λ z. same z y) q f x (λ z. left z y)) h) d.0,
    Distinct-update_where q f left right xs d.1,
  )

module _ {ℓ} {A : Type ℓ} where
  pub length-update_where :
      (p : A → Bool) (f : A → A) (xs : List A) → length (update_where p f xs) ≡ length xs
  unfolding update_where
  length-update_where p f [] = refl
  length-update_where p f (x ∷ xs) = ap suc (length-update_where p f xs)

module _ {ℓ κ} {A : Type ℓ} (P : A → Type κ) where
  pub All-append : (xs ys : List A) → All P xs → All P ys → All P (xs ++ ys)
  All-append [] ys hx hy = hy
  All-append (x ∷ xs) ys hx hy = (hx.0, All-append xs ys hx.1 hy)

  pub All-take : (n : ℕ) (xs : List A) → All P xs → All P (take n xs)
  All-take zero xs h = tt
  All-take (suc n) [] h = tt
  All-take (suc n) (x ∷ xs) h = (h.0, All-take n xs h.1)

  pub All-map_to : {Q : A → Type κ} → ((a : A) → Q a → P a) → (xs : List A) → All Q xs → All P xs
  All-map_to f [] h = tt
  All-map_to f (x ∷ xs) h = (f x h.0, All-map_to f xs h.1)

  -- An update keeps a predicate that the changed rows have.
  pub All-update_where :
      (p : A → Bool) (f : A → A) (xs : List A)
      → ((a : A) → p a ≡ true → P a → P (f a))
      → All P xs
      → All P (update_where p f xs)
  unfolding update_where
  All-update_where p f [] keep h = tt
  All-update_where p f (x ∷ xs) keep h = elim (Bool-cases (p x)) [
    | inl e ↦ rw e (keep x e h.0, All-update_where p f xs keep h.1)
    | inr e ↦ rw e (h.0, All-update_where p f xs keep h.1)
  ]

module _ {A : Type 0} where
  pub first-In : (p : A → Bool) (xs : List A) (a : A) → first p xs ≡ some a → In a xs × (p a ≡ true)
  unfolding first
  first-In p [] a e = ground arith
  first-In p (x ∷ xs) a e = elim (Bool-cases (p x)) [
    | inl h ↦ ground arith
    | inr h ↦ (let r = first-In p xs a (ground arith) in (inr r.0, r.1))
  ]

  pub All-In {κ} : (P : A → Type κ) (xs : List A) (a : A) → All P xs → In a xs → P a
  All-In P [] a h m = elim m [ ]
  All-In P (x ∷ xs) a h (inl e) = subst P (sym e) h.0
  All-In P (x ∷ xs) a h (inr m) = All-In P xs a h.1 m

  pub In-select : (p : A → Bool) (xs : List A) (a : A) → In a (select p xs) → In a xs × (p a ≡ true)
  unfolding select
  In-select p [] a m = elim m [ ]
  In-select p (x ∷ xs) a m =
      let keep = λ (k : In a (select p xs)).
        let r = In-select p xs a k in
        let out : In a (x ∷ xs) × (p a ≡ true) = (inr r.0, r.1) in out in
      elim (Bool-cases (p x)) [
        | inl h ↦
            let m' : In a (x ∷ select p xs) = (rw h at m) in
            elim m' [ inl e ↦ (inl e, rw e h) | inr k ↦ keep k ]
        | inr h ↦ keep (rw h at m)
      ]

  pub In-take : (n : ℕ) (xs : List A) (a : A) → In a (take n xs) → In a xs
  In-take zero xs a m = elim m [ ]
  In-take (suc n) [] a m = elim m [ ]
  In-take (suc n) (x ∷ xs) a (inl e) = inl e
  In-take (suc n) (x ∷ xs) a (inr m) = inr (In-take n xs a m)

  pub In-select_of :
      (p : A → Bool) (xs : List A) (a : A) → In a xs → p a ≡ true → In a (select p xs)
  unfolding select
  In-select_of p [] a m h = elim m [ ]
  In-select_of p (x ∷ xs) a m h = elim (Bool-cases (p x)) [
    | inl e ↦ rw e (elim m [ inl q ↦ inl q | inr q ↦ inr (In-select_of p xs a q h) ])
    | inr e ↦ rw e (elim m [
      | inl q ↦ absurd (false≢true (sym e ∙ ap p (sym q) ∙ h))
      | inr q ↦ In-select_of p xs a q h
    ])
  ]

  pub All-of_In {κ} : (P : A → Type κ) (xs : List A) → ((a : A) → In a xs → P a) → All P xs
  All-of_In P [] f = tt
  All-of_In P (x ∷ xs) f = (f x (inl refl), All-of_In P xs (λ a m. f a (inr m)))
