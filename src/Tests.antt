-- ===== src/Tests.antt =====
-- The theorems at concrete inputs.
pub mod Buffers
pub mod Cores
pub mod Arrays
pub mod Assembly
pub mod Programs
pub mod Systems
pub mod Instances
pub mod Arithmetic
pub mod Words
pub mod Parameters
