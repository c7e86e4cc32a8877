-- ===== src/Forms.antt =====
-- Forms of the React client that change something at the service: the coordinator of an activity
-- (client/src/components/ActivityDetail.jsx), the accounts (client/src/routes/Settings.jsx) and a new
-- project (client/src/routes/Projects.jsx).
pub mod Assign
pub mod Creation
pub mod Accounts
