-- ===== src/UserRegistration.antt =====
-- userregistration: a user in Cognito, a key pair, and a row of `users`.
pub mod Service
pub mod Saga
mod Tests
