-- ===== src/Examples.antt =====
-- Concrete runs of the models, and the theorems at concrete inputs.
pub mod Queue
pub mod Socket
pub mod Codec
pub mod Filter
pub mod Form
pub mod Rings
pub mod Packages
pub mod Lru
pub mod Evicting
pub mod Strings
pub mod Bits
pub mod Tasks
pub mod Configs
pub mod Comm
