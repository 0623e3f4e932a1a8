-- ===== src/Gpu.antt =====
-- The GPU device of virtio-devices/src/gpu: the readers and writers over descriptor chains, the fences,
-- and the blob resources that are mapped into the host-visible window.
pub mod Chains
pub mod Fences
pub mod Blobs
pub mod Protocol
pub mod Control
pub mod Dispatch
pub mod Scanouts
mod Tests
