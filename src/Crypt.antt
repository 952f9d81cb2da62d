-- ===== src/Crypt.antt =====
-- The encryption of secrets in memory, and of texts with a password.
pub mod Memory
pub mod Answer
pub mod Format
pub mod Version
pub mod Hex
pub mod Lines
pub mod Ipc
pub mod Number
pub mod Password
pub mod Examples
pub mod Toy
mod ToyExamples
