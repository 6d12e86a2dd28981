-- ===== src/Audit/Chain.antt =====
-- audit_service.py (`record`, `verify_chain`) and audit.py of VM2 (`insert_audit_log`, `verify_chain`).
use mail_sync_portal.Base.{
  ℕ, ◌≡◌, ◌↔◌, Bool, true, not, Option, none, some, List, [], ◌∷◌, ◌||◌, if◌then◌else◌,
}
use mail_sync_portal.Db.{Table, insert}

-- The hashing: texts of hashes with their comparison, and the hash of a row by the text of its fields.
-- `stored` is what a query gives back of fields that were written, which the database may give in
-- another form: a time in the zone of the session, an address, a JSON value.
pub record Hashing (Fields : Type 0) : Type 1 where
  pub Hash : Type 0
  pub genesis : Hash
  pub digest : Hash → Fields → Hash
  pub stored : Fields → Fields
  pub same_hash : Hash → Hash → Bool
  pub same_hash_iff : (a b : Hash) → (same_hash a b ≡ true) ↔ (a ≡ b)

module _ {Fields : Type 0} (hashing : Hashing Fields) where
  open hashing use {Hash, genesis, digest, stored, same_hash}

  pub record AuditRow : Type 0 where
    pub id : ℕ
    pub fields : Fields
    pub prev_hash : Hash
    pub row_hash : Hash

  -- SELECT row_hash … ORDER BY id DESC LIMIT 1, or the genesis: rows stand in the order of their ids.
  unfoldable pub last_hash : Hash → List AuditRow → Hash
  last_hash prev [] = prev
  last_hash prev (r ∷ rs) = last_hash r.row_hash rs

  -- Appends an entry under the lock that serialises the chain: the hash is that of the given fields, and
  -- the row has them as later queries read it.
  unfoldable pub record_entry : Fields → Table AuditRow → Table AuditRow
  record_entry fields t =
      let prev = last_hash genesis t.rows in
      insert
        (λ id. record {
          id = id;
          fields = stored fields;
          prev_hash = prev;
          row_hash = digest prev fields;
        })
        t

  -- The test that a row fails behind the hash `prev`.
  unfoldable pub is_broken : Hash → AuditRow → Bool
  is_broken prev r =
      not (same_hash r.prev_hash prev) || not (same_hash r.row_hash (digest prev r.fields))

  -- The loop of `verify_chain`: `none` is (True, None), an id goes with False.
  unfoldable pub verify_from : Hash → List AuditRow → Option ℕ
  verify_from prev [] = none
  verify_from prev (r ∷ rs) =
      let rest = verify_from r.row_hash rs in if is_broken prev r then some r.id else rest

  unfoldable pub verify_chain : Table AuditRow → Option ℕ
  verify_chain t = verify_from genesis t.rows
