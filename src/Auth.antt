-- ===== src/Auth.antt =====
-- app/core/auth.py: who may use the pages, and the tokens against forged requests.
pub mod Parameters
pub mod Tokens
pub mod Guards
mod Pieces
mod Signed
mod Owners
mod Accepted
mod Entry
mod Rendered
mod Tests
