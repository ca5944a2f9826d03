-- ===== src/Klog.antt =====
-- Structured logging: severity levels, retention and the cap on one row (internal/klog/klog.go and
-- internal/klog/size.go).
pub mod Level
pub mod Itoa
pub mod Quote
pub mod Truncate
pub mod Retention
mod Tests
