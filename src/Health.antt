-- ===== src/Health.antt =====
-- app/services/health_rule_service.py and source_health_service.py: how healthy a source is.
pub mod Rules
pub mod Levels
pub mod Keeping
pub mod Summary
pub mod Streaks
mod Tests
