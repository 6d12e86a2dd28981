-- ===== src/Audit.antt =====
-- The audit logs of both machines are chains of hashes: services/audit_service.py of the portal and
-- audit.py of the API of VM2 differ in the fields of a row only. `Fields` are a row's fields but for
-- the hashes; `digest prev fields` is the SHA-256 of `prev` followed by the JSON text of the fields with
-- `prev` among them, and `same_hash` compares hexadecimal texts. Both are library code: parameters.
pub mod Chain
pub mod Laws
