-- ===== src/Win.antt =====
-- utils/win, the parts for Windows.
pub mod HugePages
pub mod Regions
pub mod Nic
pub mod Attempts
pub mod Sysinfo
pub mod Walk
pub mod Experimental
pub mod Thread
pub mod Memory
pub mod Blocks
pub mod Tests
