-- ===== src/KernelConfig.antt =====
-- docs/lfs-git/chapter10/kernel/kernel-config.py: from the Kconfig files of the kernel to its options.
pub mod Lines
pub mod Stack
pub mod Entry
pub mod Load
pub mod Mark
pub mod Layout
pub mod Program
pub mod Visible
pub mod Columns
pub mod Evolution
pub mod Selected
pub mod Copies
pub mod Balance
pub mod Placement
pub mod Ending
pub mod Samples
