-- ===== src/Auth.antt =====
-- auth.go: users, roles and the users file.
pub mod Roles
pub mod Users
pub mod File
pub mod Command
