-- ===== src/Address.antt =====
-- src/address.rs: the addressing grammar `class=id:class=id#pointer`.
pub mod Class
pub mod Syntax
pub mod Grammar
pub mod Ids
pub mod Steps
pub mod Nesting
pub mod RoundTrip
pub mod Reference
pub mod Resolve
mod Tests
