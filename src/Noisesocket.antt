-- ===== src/Noisesocket.antt =====
-- pkg/transport/noisesocket: the NoiseSocket framing and its negotiation layer.
pub mod Framing
pub mod Conn
pub mod Neg
pub mod Dial
mod Tests
