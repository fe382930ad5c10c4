-- ===== src/Bolt8.antt =====
-- pkg/transport/bolt8: the BOLT-8 transport of the Lightning Network.
pub mod Primitives
pub mod Handshake
pub mod Agreement
pub mod Conn
pub mod Dial
pub mod Transport
pub mod Session
pub mod Rekey
pub mod Faults
mod Tests
