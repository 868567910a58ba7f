-- ===== src/Posix.antt =====
-- utils/posix, the parts for Linux.
pub mod Nic
pub mod Agree
pub mod Thread
pub mod Sets
pub mod Memory
pub mod Tests
