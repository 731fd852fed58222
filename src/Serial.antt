-- ===== src/Serial.antt =====
-- src/SerialImp.c: the native methods of gnu.io.RXTXPort.
pub mod Speed
pub mod Params
pub mod Native
pub mod Lines
pub mod Events
pub mod Loop
pub mod Transfer
pub mod Preopened
pub mod Static
pub mod Custom
pub mod Session
pub mod Scan
pub mod Text
pub mod Lock
