-- ===== src/Driver.antt =====
-- module/new/binder.c: the driver proper, one call of one thread at a time.
pub mod World
pub mod Bytes
pub mod Keeps
pub mod Messages
pub mod Objects
pub mod Transfer
pub mod Transaction
pub mod Looper
pub mod Traces
pub mod Handlers
pub mod Buffers
pub mod Write
pub mod Read
pub mod Ioctl
pub mod Mapping
pub mod Process
pub mod Tests
