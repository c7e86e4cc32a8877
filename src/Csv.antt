-- ===== src/Csv.antt =====
-- The CSV readers of the two interfaces: web/app.js reads quoted fields, and
-- client/src/lib/useProjectSchedule.js splits lines at commas. A text is the list of its code
-- units.
pub mod Plain
pub mod Quoted
