-- ===== src/Lib.antt =====
-- nesbox: a model of the parts of a virtual machine monitor that a guest's writes reach first.
--
-- A guest sees RAM and a PCI bus. The bus (pci/src/lib.rs) places the BARs of its devices in two
-- windows of the guest's physical address space, which vmm/src/layout.rs lays out, answers
-- configuration space through ports and through memory, and hands accesses to BARs on. A virtio
-- device keeps queues in guest memory, a common configuration and an MSI-X table
-- (virtio-devices/src/common.rs). The GPU's shared window is mapped through KVM memory slots
-- (vmm/src/memslot.rs), under a quota (virtio-devices/src/gpu/window.rs) that the blob resources of
-- virtio-devices/src/gpu/virtio_gpu.rs charge, and the device memory that a guest asks for is counted
-- (virtio-devices/src/gpu/vram.rs). The block device (virtio-devices/src/blk) takes requests from its
-- queues and completes them there. Interrupts reach the guest through the routes of
-- vmm/src/interrupt.rs, and the serial port is vmm/src/serial.rs. What a guest is told of its CPUs is
-- vmm/src/cpuid.rs, after the machine of vmm/src/config.rs. A device that the guest's own write
-- activates starts its workers on the CPUs of virtio-devices/src/affinity.rs.
--
-- Files and code:
--   Base       names, Boolean tests, lists and machine words that the others share
--   Guest      guest memory, which is the vm-memory crate and so a parameter: its reads and writes
--              with their laws; Guest/Flat is one memory that has them, Guest/Spans runs of addresses
--   Virtqueue  common.rs: QState, collect_descs_with, pop_avail, push_used and the notification
--              hints. The walk's loop is recursion on the rounds that its bound leaves. Walk, Chain
--              and Indirect are about descriptor chains, Avail and Used about the rings, Batch about
--              completions in a row, Event about notifications
--   Transport  common.rs: parse_write, write_val, write_queue_addr, write_driver_feature, com_read
--   Msix       common.rs: MsixTable; eventfds and routes are a list of effects, `trigger` is
--              MsixTable::trigger. A table has at most 64 entries, as the u64 of pending bits does
--   Bus        pci/src/lib.rs: Alloc is add_device_arc, Config is config_read and config_write,
--              Dispatch the port and memory accesses. Six rounds of fuel are enough for the loop over
--              BARs, since every round moves its index on. A device is what it declares; its own
--              registers are outcomes that name it. The kernel's answer to a doorbell is a function
--   PciConfig  pci/src/config.rs: PciConfig; `linked` is what add_cap writes once its assertions hold
--   Layout     layout.rs: ram_regions, acpi_start, ram_top, mmio64_window
--   Window     window.rs: WindowQuota with try_map and release
--   Slots      memslot.rs: MemorySlots; what mmap and KVM_SET_USER_MEMORY_REGION answer is an
--              argument of each call, and the regions that the VM holds are part of the state
--   Blk        virtio-devices/src/blk. Disk is disk.rs, Request is request.rs, Worker is worker.rs with
--              its engine as an interface: Transfer is about the data of a request, Complete about a
--              completion, Issue about a chain taken, Drain about the loops. The loops of `drain` run
--              on fuel; Terminates bounds the inner one. A turn of `run` starts after its wait.
--              Device is mod.rs, the device as the guest sees it: what it does to others is a list of
--              acts. Served is about the common configuration, Notified about doorbells
--   Serial     vmm/src/serial.rs: what goes to standard output is given back
--   Interrupt  vmm/src/interrupt.rs: the routing table that KVM holds is part of the state; Table
--              is about what that table makes of a line
--   Gpu        virtio-devices/src/gpu. Chains is descriptor_utils.rs; Fences and Blobs are parts of
--              virtio_gpu.rs, with the renderer's answers as arguments. Protocol is protocol.rs and
--              Control is process_ctl_queue of worker.rs: what a command does beside the fences is
--              an interface, and the fences that signal meanwhile are listed with each chain. Dispatch is
--              process_gpu_command of worker.rs, up to the call of the device; Scanouts is
--              set_scanout, display_info, get_edid and flush_resource of virtio_gpu.rs
--   Affinity   virtio-devices/src/affinity.rs: how a vCPU thread steps out to start a worker, with the
--              system calls as a parameter; Restored says what it relies on of them
--   Cpuid      vmm/src/cpuid.rs: Leaves is about the table of entries, Topology about what a guest
--              reads of it. Numbers have at most 32 digits, which is the fuel of `digits`
--   Machine    vmm/src/config.rs: MachineConfig::validate and where threads go; Sorted is about the
--              standard library's sort and dedup
--   Vram       vram.rs: the walk over a command stream here, and the accountant in Vram/Ledger. The
--              walk has a round of fuel for each byte and one more; a record is 16 bytes at least
--
-- Addresses are natural numbers, with wrap-around, saturation and checks written out where the code
-- has them. Locks are not modelled: each call holds its lock throughout. Logging and the texts of
-- errors are left out.
--
-- Not modelled: the GPU's own registers, the renderer, io_uring and the wait of a block worker, the
-- other devices, the assembly of a VM, its isolation and its tools.
pub mod Base
pub mod Guest
pub mod Virtqueue
pub mod Transport
pub mod Msix
pub mod Bus
pub mod Layout
pub mod PciConfig
pub mod Window
pub mod Slots
pub mod Vram
pub mod Blk
pub mod Serial
pub mod Interrupt
pub mod Gpu
pub mod Affinity
pub mod Cpuid
pub mod Machine
