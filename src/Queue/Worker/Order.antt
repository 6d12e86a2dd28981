-- ===== src/Queue/Worker/Order.antt =====
-- The order of the candidates: ORDER BY priority, id LIMIT 5 of `_claim_next_job`.
use mail_sync_portal.Base.{
  ℕ, zero, suc, ◌≡◌, subst, Bool, true, false, some, inl, inr, List, [], ◌∷◌, arith, All, In, take,
  first, Bool-cases, All-map_to, All-In, All-of_In,
}
use mail_sync_portal.Db.{Job}
use mail_sync_portal.Queue.Worker.{before, place, order_by}

before_refl : (a : Job) → before a a ≡ true
before_refl a = ground arith

before_total : (a b : Job) → before a b ≡ false → before b a ≡ true
before_total a b h = ground arith

before_trans : (a b c : Job) → before a b ≡ true → before b c ≡ true → before a c ≡ true
before_trans a b c h k = ground arith

-- Each row stands before those that follow it.
abbrev pub IsOrdered : List Job → Type 0
IsOrdered [] = Unit
IsOrdered (j ∷ js) = All (λ k. before j k ≡ true) js × IsOrdered js

All-place : (P : Job → Type 0) (j : Job) (js : List Job) → P j → All P js → All P (place j js)
unfolding place
All-place P j [] h hs = (h, tt)
All-place P j (k ∷ ks) h hs = elim (Bool-cases (before j k)) [
  | inl e ↦ rw e (h, hs)
  | inr e ↦ rw e (hs.0, All-place P j ks h hs.1)
]

place-IsOrdered : (j : Job) (js : List Job) → IsOrdered js → IsOrdered (place j js)
unfolding place
place-IsOrdered j [] h = (tt, tt)
place-IsOrdered j (k ∷ ks) h = elim (Bool-cases (before j k)) [
  | inl e ↦ rw e ((e, All-map_to _ (λ c. before_trans j k c e) ks h.0), h)
  | inr e ↦ rw e (All-place _ j ks (before_total j k e) h.0, place-IsOrdered j ks h.1)
]

pub order_by-IsOrdered : (js : List Job) → IsOrdered (order_by js)
unfolding order_by
order_by-IsOrdered [] = tt
order_by-IsOrdered (j ∷ js) = place-IsOrdered j (order_by js) (order_by-IsOrdered js)

pub In-place : (a j : Job) (js : List Job) → In a (j ∷ js) → In a (place j js)
unfolding place
In-place a j [] m = m
In-place a j (k ∷ ks) m = elim (Bool-cases (before j k)) [
  | inl e ↦ rw e m
  | inr e ↦ rw e (elim m [
    | inl h ↦ inr (In-place a j ks (inl h))
    | inr (inl h) ↦ inl h
    | inr (inr h) ↦ inr (In-place a j ks (inr h))
  ])
]

pub In-order_by : (a : Job) (js : List Job) → In a js → In a (order_by js)
unfolding order_by
In-order_by a [] m = m
In-order_by a (j ∷ js) (inl e) = In-place a j (order_by js) (inl e)
In-order_by a (j ∷ js) (inr m) = In-place a j (order_by js) (inr (In-order_by a js m))

pub All-order_by : (P : Job → Type 0) (js : List Job) → All P js → All P (order_by js)
unfolding order_by
All-order_by P [] h = tt
All-order_by P (j ∷ js) h = All-place P j (order_by js) h.0 (All-order_by P js h.1)

-- The first hit among the first `n` of an ordered list stands before every hit of the whole list.
pub first-take_least :
    (p : Job → Bool) (n : ℕ) (js : List Job) (j c : Job)
    → IsOrdered js
    → first p (take n js) ≡ some j
    → In c js
    → p c ≡ true
    → before j c ≡ true
unfolding first
first-take_least p n [] j c ord e m h = elim m [ ]
first-take_least p zero (x ∷ xs) j c ord e m h = ground arith
first-take_least p (suc n) (x ∷ xs) j c ord e m h = elim (Bool-cases (p x)) [
  | inl hit ↦
      let q : x ≡ j = ground arith in
      subst (λ y. before y c ≡ true) q
        (elim m [
          | inl r ↦ rw r (before_refl x)
          | inr r ↦ All-In (λ k. before x k ≡ true) xs c ord.0 r
        ])
  | inr miss ↦ elim m [
    | inl q ↦ ground arith
    | inr q ↦ first-take_least p n xs j c ord.1 (ground arith) q h
  ]
]

pub order_by-In : (a : Job) (js : List Job) → In a (order_by js) → In a js
order_by-In a js =
    All-In (λ x. In x js) (order_by js) a (All-order_by _ js (All-of_In _ js (λ x m. m)))
