-- ===== src/Cubebin.antt =====
-- The `.cubebin` format (src/compiler.rs: `to_cubebin`, `from_cubebin`, `save`).
pub mod Reader
pub mod Format
pub mod RoundTrip
pub mod Save
