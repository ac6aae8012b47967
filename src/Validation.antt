-- ===== src/Validation.antt =====
-- The validation of collector configurations, ui/src/lib/validation.
pub mod Types
pub mod Patterns
pub mod Position
pub mod Outcome
pub mod Pipeline
pub mod Extensions
pub mod EmptyPipeline
pub mod Run
mod Tests
