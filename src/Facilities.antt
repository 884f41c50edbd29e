-- ===== src/Facilities.antt =====
-- src/facilities: the discovery of facilities, page by page.
pub mod Types
pub mod Repository
pub mod Service
pub mod Order
pub mod Rows
pub mod Walk
pub mod Foreign
