-- ===== src/Raw.antt =====
-- pkg/transport/raw: the 2-byte length framing of Noise messages.
pub mod Prologue
pub mod Conn
pub mod Dial
mod Tests
