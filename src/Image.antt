-- ===== src/Image.antt =====
-- Production firmware images (firmware/family/image_metadata.py): the parts in the order in which
-- the tool uses them. Each part's proofs are in the modules below it.
pub mod Failure
pub mod Memory
pub mod Hex
pub mod Decode
pub mod Identity
pub mod Crc
pub mod Json
pub mod Verify
pub mod Metadata
mod Tests
