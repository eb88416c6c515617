-- ===== src/Ttl.antt =====
-- pkg/ttl/ttl.go: keys with a lease are deleted when it has elapsed.
pub mod Store
pub mod Loops
pub mod Held
pub mod Handled
pub mod Tracked
pub mod Examples
