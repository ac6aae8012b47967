-- ===== src/Pages.antt =====
-- ui/src/pages: the state of the pages with forms, and the requests that they send.
pub mod Configs
pub mod Sources
pub mod Keys
pub mod Audit
pub mod Signin
pub mod Topology
pub mod Groups
mod Tests
