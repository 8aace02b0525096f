-- ===== src/Control.antt =====
-- The daemon that boots the virtual machines and serves their terminals: control-plane/internal.
pub mod Config
pub mod Netalloc
pub mod Serial
pub mod Firecracker
pub mod Jailer
pub mod Machine
pub mod Bridge
pub mod Rootfs
pub mod Manager
pub mod Host
pub mod Daemon
pub mod Session
pub mod Store
pub mod Migrations
pub mod Guest
pub mod Wire
pub mod Api
pub mod Router
pub mod Pages
pub mod Auth
pub mod Tests
