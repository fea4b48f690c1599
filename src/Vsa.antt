-- ===== src/Vsa.antt =====
-- The vector-symbolic layer of the VM (src/vm/hypervec.rs, src/vm/codebook.rs, src/vm/index.rs).
pub mod Hypervec
pub mod Algebra
pub mod Bundle
pub mod Codebook
pub mod Index
pub mod Nearest
pub mod Packed
pub mod Hamming
