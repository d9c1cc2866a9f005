-- ===== src/Ch.antt =====
-- internal/ch: sample events, the asynchronous writer, and the reports read from ClickHouse.
pub mod Event
pub mod Writer
pub mod Reader
