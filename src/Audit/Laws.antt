-- ===== src/Audit/Laws.antt =====
-- What the chain of hashes shows.
use mathlib.Core.Bool.{false≢true}
use mail_sync_portal.Base.{
  ℕ, All, ◌≡◌, refl, sym, ap, ◌∙◌, true, false, Option, none, some, inl, inr, ◌⊎◌, List, [], ◌∷◌,
  ◌++◌, arith, Bool-cases,
}
use mail_sync_portal.Db.{Table, insert}
use mail_sync_portal.Audit.Chain.{
  Hashing, AuditRow, last_hash, record_entry, is_broken, verify_from, verify_chain,
}

module _ {Fields : Type 0} (hashing : Hashing Fields) where
  open hashing use {Hash, genesis, digest, stored, same_hash, same_hash_iff}

  abbrev Row : Type 0
  Row = AuditRow hashing

  -- A row that stands rightly behind `prev`.
  pub record IsLinked (prev : Hash) (r : Row) : Type 0 where
    pub prev_hash : r.prev_hash ≡ prev
    pub row_hash : r.row_hash ≡ digest prev r.fields

  -- Each row stands rightly behind the one before it.
  pub data IsChain : Hash → List Row → Type 0 where
    end : (prev : Hash) → IsChain prev []
    link :
        {prev : Hash} (r : Row) {rs : List Row}
        → IsLinked prev r
        → IsChain r.row_hash rs
        → IsChain prev (r ∷ rs)

  IsLinked-or :
      (prev : Hash) (r : Row)
      → (IsLinked prev r × (is_broken hashing prev r ≡ false))
        ⊎ ((¬ IsLinked prev r) × (is_broken hashing prev r ≡ true))
  unfolding is_broken
  IsLinked-or prev r = elim (Bool-cases (same_hash r.prev_hash prev)) [
    | inl p ↦ elim (Bool-cases (same_hash r.row_hash (digest prev r.fields))) [
      | inl q ↦ inl (
        record { prev_hash = (same_hash_iff _ _).0 p; row_hash = (same_hash_iff _ _).0 q },
        rw (p, q) refl,
      )
      | inr q ↦ inr (λ l. false≢true (sym q ∙ (same_hash_iff _ _).1 l.row_hash), rw (p, q) refl)
    ]
    | inr p ↦ inr (λ l. false≢true (sym p ∙ (same_hash_iff _ _).1 l.prev_hash), rw p refl)
  ]

  -- What `verify_chain` reports: a chain, or the first row that does not stand rightly, behind a chain.
  pub data Verdict (prev : Hash) (rows : List Row) : Option ℕ → Type 0 where
    intact : IsChain prev rows → Verdict prev rows none
    broken :
        (good : List Row) (r : Row) (rest : List Row) (last : Hash)
        → rows ≡ good ++ r ∷ rest
        → IsChain prev good
        → last ≡ last_hash hashing prev good
        → ¬ IsLinked last r
        → Verdict prev rows (some r.id)

  Verdict-link :
      {prev : Hash} (r : Row) {rs : List Row} {o : Option ℕ}
      → IsLinked prev r
      → Verdict r.row_hash rs o
      → Verdict prev (r ∷ rs) o
  Verdict-link r l (intact c) = intact (link r l c)
  Verdict-link r l (broken good s rest last e c q bad) =
      broken (r ∷ good) s rest last (ap (λ t. r ∷ t) e) (link r l c) (unfold last_hash in q) bad

  verify_from-Verdict :
      (prev : Hash) (rows : List Row) → Verdict prev rows (verify_from hashing prev rows)
  unfolding verify_from
  verify_from-Verdict prev [] = intact (end prev)
  verify_from-Verdict prev (r ∷ rs) = elim (IsLinked-or prev r) [
    | inr (bad, e) ↦ rw e (broken [] r rs prev refl (end prev) (unfold last_hash in refl) bad)
    | inl (good, e) ↦ rw e (Verdict-link r good (verify_from-Verdict r.row_hash rs))
  ]

  -- `verify_chain` accepts exactly the chains from the genesis, and else names the first row that does
  -- not stand rightly behind a good part.
  pub verify_chain-Verdict : (t : Table Row) → Verdict genesis t.rows (verify_chain hashing t)
  unfolding verify_chain
  verify_chain-Verdict t = verify_from-Verdict genesis t.rows

  Verdict-none :
      {prev : Hash} {rows : List Row} {o : Option ℕ}
      → Verdict prev rows o
      → o ≡ none
      → IsChain prev rows
  Verdict-none (intact c) e = c
  Verdict-none (broken good r rest last q c k bad) e = absurd (ground arith)

  IsChain-verified :
      (prev : Hash) (rows : List Row) → IsChain prev rows → verify_from hashing prev rows ≡ none
  unfolding verify_from
  IsChain-verified prev rows (end p) = refl
  IsChain-verified prev rows (link r {rs = rs} l c) = elim (IsLinked-or prev r) [
    | inl (good, e) ↦ rw e (IsChain-verified r.row_hash rs c)
    | inr (bad, e) ↦ absurd (bad l)
  ]

  IsChain-append :
      (prev : Hash) (rows : List Row) (r : Row)
      → IsChain prev rows
      → IsLinked (last_hash hashing prev rows) r
      → IsChain prev (rows ++ r ∷ [])
  unfolding last_hash
  IsChain-append prev rows r (end p) l = link r l (end r.row_hash)
  IsChain-append prev rows r (link s {rs = rs} k c) l =
      link s k (IsChain-append s.row_hash rs r c l)

  -- The log after entries with the given fields, one by one.
  pub record_all : List Fields → Table Row → Table Row
  record_all [] t = t
  record_all (f ∷ fs) t = record_all fs (record_entry hashing f t)

  -- The fields have the same hash as they are given and as they are read back.
  abbrev pub IsStable : Fields → Type 0
  IsStable f = (p : Hash) → digest p f ≡ digest p (stored f)

  record-IsChain :
      (f : Fields) (t : Table Row)
      → IsStable f
      → IsChain genesis t.rows
      → IsChain genesis (record_entry hashing f t).rows
  unfolding record_entry insert
  record-IsChain f t e c =
      IsChain-append genesis t.rows _ c (record { prev_hash = refl; row_hash = e _ })

  record_all-IsChain :
      (fs : List Fields) (t : Table Row)
      → All IsStable fs
      → IsChain genesis t.rows
      → IsChain genesis (record_all fs t).rows
  unfolding record_all
  record_all-IsChain [] t e c = c
  record_all-IsChain (f ∷ fs) t e c =
      record_all-IsChain fs (record_entry hashing f t) e.1 (record-IsChain f t e.0 c)

  -- A log that verifies still verifies after any entries that `record` adds, where the fields of these
  -- have the same hash as they are given and as the database gives them back.
  pub verify_chain-record_all :
      (fs : List Fields) (t : Table Row)
      → All IsStable fs
      → verify_chain hashing t ≡ none
      → verify_chain hashing (record_all fs t) ≡ none
  unfolding verify_chain
  verify_chain-record_all fs t stable e =
      IsChain-verified genesis _
        (record_all-IsChain fs t stable (Verdict-none (verify_chain-Verdict t) e))

  -- The fields of the rows, in their order.
  pub all_fields : List Row → List Fields
  all_fields [] = []
  all_fields (r ∷ rs) = r.fields ∷ all_fields rs

  -- Two different arguments that the digest takes to one hash.
  pub record Collision : Type 0 where
    pub prev : Hash
    pub prev' : Hash
    pub one : Fields
    pub other : Fields
    pub collide : digest prev one ≡ digest prev' other
    pub differ : ¬ ((prev ≡ prev') × (one ≡ other))
