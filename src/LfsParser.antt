-- ===== src/LfsParser.antt =====
-- src/parsers/lfs_parser.py
pub mod Commands
pub mod Clean
pub mod Lines
pub mod Transcript
pub mod Extract
pub mod Origin
pub mod Recover
pub mod AndPattern
pub mod Names
pub mod Phrase
pub mod RoundTrip
pub mod Xml
pub mod Dependencies
pub mod Samples
