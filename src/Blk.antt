-- ===== src/Blk.antt =====
-- The block device of virtio-devices/src/blk: the backing file, the requests parsed from descriptor
-- chains, and the worker that issues and completes them.
pub mod Disk
pub mod Request
pub mod Worker
pub mod Device
mod Tests
