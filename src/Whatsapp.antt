-- ===== src/Whatsapp.antt =====
-- pkg/transport/whatsapp: WhatsApp's Noise transport.
pub mod Framing
pub mod Varint
pub mod Proto
pub mod Noise
pub mod Cert
pub mod Handshake
pub mod Conn
pub mod Dial
mod Tests
