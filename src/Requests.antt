-- ===== src/Requests.antt =====
-- `lib/tuya_ble_mesh/transport/`: requests and results, their correlation, the dispatcher that sends
-- and retries them, and its metrics. Times are numbers of milliseconds, and an identifier (a UUID in
-- the code) is a number.
pub mod Request
pub mod Correlation
pub mod Metrics
pub mod Dispatcher
mod Tests
