-- ===== src/Admin.antt =====
-- The administration service, internal/admin.
pub mod RateLimit
pub mod KeyGen
pub mod Settings
pub mod Session
pub mod Site
pub mod Apps
