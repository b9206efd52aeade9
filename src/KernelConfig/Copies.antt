-- ===== src/KernelConfig/Copies.antt =====
-- The copies of kernel-config.py in docs/blfs-git/kernel-config and docs/glfs/kernel-config. Both
-- differ from the first in the search for the marked letter, in blank lines of comments and in the
-- attributes of the template, and not from each other.
pub mod Letter
pub mod Blfs
pub mod Glfs
pub mod Agreement
