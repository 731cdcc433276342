-- ===== src/Kernel.antt =====
-- What the modules use of the kernel, as interfaces: operations and their documented laws.
pub mod ContainerOf
pub mod ListHead
pub mod Locks
pub mod RcuList
pub mod RadixApi
pub mod IrqApi
pub mod KprobeApi
pub mod KernfsApi
pub mod FileOps
pub mod ChrdevApi
pub mod UserSpace
pub mod Examples
