-- ===== src/Changelog.antt =====
-- docs/lfs-git/gen-changelog.py, which writes the entries of the change log from `git diff`.
pub mod Entity
pub mod Packages
pub mod Tickets
pub mod Report
pub mod Blank
pub mod Partition
pub mod RoundTrip
pub mod Expansion
pub mod Samples
