-- ===== src/Mdrive.antt =====
-- drivers/mdrive: the driver for MDrive units on serial lines.
pub mod Checksum
pub mod Response
pub mod Reader
pub mod Dialogue
pub mod Config
pub mod Axis
pub mod Profile
pub mod Motion
pub mod Variables
pub mod Microcode
pub mod Classify
pub mod Transaction
pub mod Queue
pub mod Ports
pub mod Subscribers
