-- ===== src/Rules.antt =====
-- The rules of hardware/family/tools/text_rules.py: conditions of clearance rules, net classes and
-- the clearance between two items.
pub mod Syntax
pub mod Scan
pub mod Parse
pub mod Glob
pub mod Judge
pub mod Project
pub mod Clear
pub mod Names
pub mod Pairs
pub mod Ends
pub mod Printed
pub mod Reads
pub mod RoundTrip
pub mod Spelled
pub mod Maximum
mod Tests
