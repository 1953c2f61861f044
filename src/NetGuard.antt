-- ===== src/NetGuard.antt =====
-- backend/internal/netguard/netguard.go: which remote hosts the server connects to. The resolver of
-- names and the dialer are parameters; net/netip is modelled on addresses as numbers.
pub mod Address
pub mod Guard
pub mod Quads
pub mod Public
mod Tests
