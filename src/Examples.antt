-- ===== src/Examples.antt =====
-- The theorems at concrete inputs, and tests of the definitions.
pub mod Access
pub mod Codes
pub mod Messaging
pub mod Selling
pub mod Failing
pub mod Discovering
pub mod Operating
pub mod Admitting
pub mod Factors
