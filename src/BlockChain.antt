-- ===== src/BlockChain.antt =====
-- The block reader of src/BlockChain.cpp, from single bytes up to whole blocks.
pub mod Stream
pub mod Script
pub mod Data
pub mod Transaction
pub mod Format
pub mod Reads
pub mod Pointers
pub mod Addresses
pub mod Inputs
pub mod Outputs
pub mod Ending
pub mod Decode
pub mod Sequence
pub mod Blocks
pub mod Samples
mod Tests
