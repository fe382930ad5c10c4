-- ===== src/Noisecat.antt =====
-- pkg/noisecat: the configuration, its keys, and what is made of them.
pub mod Names
pub mod Config
pub mod Keys
pub mod Noise
pub mod Parse
pub mod Net
pub mod Runners
pub mod Main
mod Tests
