-- ===== src/Menuconfig.antt =====
-- docs/jhalfs/menu/menuconfig.py, the menu that jhalfs is configured in.
pub mod Edit
pub mod View
pub mod Typing
pub mod Kconf
pub mod Shown
pub mod Navigate
pub mod Change
pub mod OnScreen
pub mod Reach
pub mod Return
pub mod Toggle
pub mod Samples
pub mod Number
pub mod ChangeNode
pub mod Loop
pub mod Changed
pub mod Editor
pub mod Refines
pub mod WordEnd
pub mod Dialog
pub mod InRange
pub mod Same
pub mod Kept
pub mod Pressed
pub mod Session
pub mod Quit
pub mod Run
pub mod Saved
pub mod Unlost
pub mod Ended
pub mod Guarded
pub mod Lossless
pub mod Closing
pub mod Search
pub mod JumpDialog
pub mod Matching
pub mod Listed
pub mod Searching
pub mod Chosen
pub mod Entry
pub mod Honest
