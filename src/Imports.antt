-- ===== src/Imports.antt =====
-- The import of mailboxes: the columns of a spreadsheet, the staging of its rows, and the rows' way
-- into the tables.
pub mod Columns
pub mod Service
pub mod Batch
