-- ===== src/ScanFindings/Order.antt =====
-- What the list of findings keeps when it is sorted and cut, and its numbers.
use mail_sync_portal.Base.{
  ◌⊎◌, ltb→lt, ◌≤◌, ◌||◌, ◌&&◌, inr, inl, Bool-cases, ltb, ◌<◌, ◌==◌, ℕ, zero, suc, ◌+◌, min, ◌≡◌,
  refl, ◌∙◌, ap, Bool, true, false, List, [], ◌∷◌, length, take, count_where, All, All-map_to,
  All-take, arith, of_test,
}
use mail_sync_portal.ScanFindings.{Finding, rank, precedes, insert_row, sorted}

-- `a` may stand before `b`: it is more severe, or as severe and not older.
abbrev pub MayPrecede : Finding → Finding → Type 0
MayPrecede a b = (rank b < rank a) ⊎ ((rank a ≡ rank b) × (b.id ≤ a.id))

abbrev pub Sorted : List Finding → Type 0
Sorted [] = Unit
Sorted (x ∷ xs) = All (MayPrecede x) xs × Sorted xs

trans : (a b c : Finding) → MayPrecede a b → MayPrecede b c → MayPrecede a c
trans a b c (inl e) (inl f) = inl (omega arith)
trans a b c (inl e) (inr f) = (let g = f.0 in inl (omega arith))
trans a b c (inr e) (inl f) = (let g = e.0 in inl (omega arith))
trans a b c (inr e) (inr f) = (let x = e.1 in let y = f.1 in inr (e.0 ∙ f.0, omega arith))

by_key : (m n i j : ℕ) → (ltb n m || (m == n && ltb j i)) ≡ true → (n < m) ⊎ ((m ≡ n) × (j ≤ i))
by_key m n i j e = elim (Bool-cases (ltb n m)) [
  | inl f ↦ inl (ltb→lt n m f)
  | inr f ↦ inr ((ground arith), (ground arith))
]

not_by_key :
    (m n i j : ℕ) → (ltb n m || (m == n && ltb j i)) ≡ false → (m < n) ⊎ ((n ≡ m) × (i ≤ j))
not_by_key m n i j e = elim (Bool-cases (ltb m n)) [
  | inl f ↦ inl (ltb→lt m n f)
  | inr f ↦ inr ((ground arith), (ground arith))
]

first_before : (a b : Finding) → precedes a b ≡ true → MayPrecede a b
first_before a b e = by_key (rank a) (rank b) a.id b.id e

second_before : (a b : Finding) → precedes a b ≡ false → MayPrecede b a
second_before a b e = not_by_key (rank a) (rank b) a.id b.id e

All-insert_row :
    (P : Finding → Type 0) (x : Finding) (ys : List Finding)
    → P x
    → All P ys
    → All P (insert_row x ys)
unfolding insert_row
All-insert_row P x [] h hs = (h, tt)
All-insert_row P x (y ∷ ys) h hs =
    of_test (All P) (precedes y x) (λ e. (hs.0, All-insert_row P x ys h hs.1)) (λ e. (h, hs))

pub All-sorted : (P : Finding → Type 0) (xs : List Finding) → All P xs → All P (sorted xs)
unfolding sorted
All-sorted P [] h = tt
All-sorted P (x ∷ xs) h = All-insert_row P x (sorted xs) h.0 (All-sorted P xs h.1)

insert_row-Sorted : (x : Finding) (ys : List Finding) → Sorted ys → Sorted (insert_row x ys)
unfolding insert_row
insert_row-Sorted x [] s = (tt, tt)
insert_row-Sorted x (y ∷ ys) s =
    of_test Sorted (precedes y x)
      (λ e.
        (All-insert_row (MayPrecede y) x ys (first_before y x e) s.0, insert_row-Sorted x ys s.1))
      (λ e. (
        (
          second_before y x e,
          All-map_to (MayPrecede x) (λ z h. trans x y z (second_before y x e) h) ys s.0,
        ),
        s,
      ))

pub sorted-Sorted : (xs : List Finding) → Sorted (sorted xs)
unfolding sorted
sorted-Sorted [] = tt
sorted-Sorted (x ∷ xs) = insert_row-Sorted x (sorted xs) (sorted-Sorted xs)

count_where-insert_row :
    (p : Finding → Bool) (x : Finding) (ys : List Finding)
    → count_where p (insert_row x ys) ≡ count_where p (x ∷ ys)
unfolding insert_row count_where
count_where-insert_row p x [] = refl
count_where-insert_row p x (y ∷ ys) =
    of_test (λ l. count_where p l ≡ count_where p (x ∷ y ∷ ys)) (precedes y x)
      (λ e. (let h = count_where-insert_row p x ys in ground arith)) (λ e. refl)

pub count_where-sorted :
    (p : Finding → Bool) (xs : List Finding) → count_where p (sorted xs) ≡ count_where p xs
unfolding sorted count_where
count_where-sorted p [] = refl
count_where-sorted p (x ∷ xs) =
    (let h = count_where-sorted p xs in
      let g = count_where-insert_row p x (sorted xs) in ground arith)

length-insert_row : (x : Finding) (ys : List Finding) → length (insert_row x ys) ≡ suc (length ys)
unfolding insert_row
length-insert_row x [] = refl
length-insert_row x (y ∷ ys) =
    of_test (λ (l : List Finding). length l ≡ suc (suc (length ys))) (precedes y x)
      (λ e. ap suc (length-insert_row x ys)) (λ e. refl)

pub length-sorted : (xs : List Finding) → length (sorted xs) ≡ length xs
unfolding sorted
length-sorted [] = refl
length-sorted (x ∷ xs) = length-insert_row x (sorted xs) ∙ ap suc (length-sorted xs)

-- What `take` leaves.
abbrev pub rest_of : ℕ → List Finding → List Finding
rest_of zero xs = xs
rest_of (suc n) [] = []
rest_of (suc n) (x ∷ xs) = rest_of n xs

All-rest_of : (P : Finding → Type 0) (n : ℕ) (xs : List Finding) → All P xs → All P (rest_of n xs)
All-rest_of P zero xs h = h
All-rest_of P (suc n) [] h = tt
All-rest_of P (suc n) (x ∷ xs) h = All-rest_of P n xs h.1

pub take-above :
    (n : ℕ) (xs : List Finding)
    → Sorted xs
    → All (λ a. All (MayPrecede a) (rest_of n xs)) (take n xs)
take-above zero xs s = tt
take-above (suc n) [] s = tt
take-above (suc n) (x ∷ xs) s = (All-rest_of (MayPrecede x) n xs s.0, take-above n xs s.1)

pub count_where-split :
    (p : Finding → Bool) (n : ℕ) (xs : List Finding)
    → count_where p (take n xs) + count_where p (rest_of n xs) ≡ count_where p xs
unfolding count_where
count_where-split p zero xs = omega arith
count_where-split p (suc n) [] = refl
count_where-split p (suc n) (x ∷ xs) = (let h = count_where-split p n xs in ground arith)

take-Sorted : (n : ℕ) (xs : List Finding) → Sorted xs → Sorted (take n xs)
take-Sorted zero xs s = tt
take-Sorted (suc n) [] s = tt
take-Sorted (suc n) (x ∷ xs) s = (All-take (MayPrecede x) n xs s.0, take-Sorted n xs s.1)

pub length-cut : (n : ℕ) (xs : List Finding) → length (take n xs) ≡ min n (length xs)
length-cut zero xs = omega arith
length-cut (suc n) [] = omega arith
length-cut (suc n) (x ∷ xs) = (let h = length-cut n xs in omega arith)

-- `shown` are the first `n` of the rows: with the rest they are all rows, each as often as before, none
-- of the rest is more severe than one that is shown, or as severe and newer, and the shown ones descend.
pub record IsTop (n : ℕ) (rows shown : List Finding) : Type 0 where
  pub rest : List Finding
  pub parts : (p : Finding → Bool) → count_where p shown + count_where p rest ≡ count_where p rows
  pub above : All (λ a. All (MayPrecede a) rest) shown
  pub descends : Sorted shown
  pub size : length shown ≡ min n (length rows)

pub sorted-IsTop : (n : ℕ) (rows : List Finding) → IsTop n rows (take n (sorted rows))
sorted-IsTop n rows = record {
  rest = rest_of n (sorted rows);
  parts = λ p. count_where-split p n (sorted rows) ∙ count_where-sorted p rows;
  above = take-above n (sorted rows) (sorted-Sorted rows);
  descends = take-Sorted n (sorted rows) (sorted-Sorted rows);
  size = length-cut n (sorted rows) ∙ ap (min n) (length-sorted rows);
}
