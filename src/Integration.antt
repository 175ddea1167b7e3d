-- ===== src/Integration.antt =====
-- The Home Assistant side of the integration: `error_classifier.py`, `connection_manager.py` and
-- `coordinator.py`.
pub mod Classify
pub mod Manager
pub mod Unreachable
pub mod Polling
mod Coordinator
mod Tests
