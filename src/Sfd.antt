-- ===== src/Sfd.antt =====
-- Smart file descriptors, linux/common/ipc/sfd.
pub mod Registry
pub mod Shared
pub mod Unique
mod Tests
