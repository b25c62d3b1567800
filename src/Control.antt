-- ===== src/Control.antt =====
-- src/control: the admission of terminals, and signing in.
pub mod Maps
pub mod SignIn
pub mod Terminals
mod Tests
