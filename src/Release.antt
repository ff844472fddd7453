-- ===== src/Release.antt =====
-- The comparison of a generated board with its release, hardware/family/gen/compare_release.py, and
-- the list of material of hardware/family/gen/bom.py.
pub mod NetlistXml
pub mod Order
pub mod Roots
pub mod Bom
pub mod Compare
pub mod Differences
pub mod Gathered
pub mod Collected
pub mod Fields
pub mod Records
pub mod Same
pub mod Count
pub mod Exit
mod Tests
