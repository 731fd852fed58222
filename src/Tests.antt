-- ===== src/Tests.antt =====
-- Runs of the modelled functions on concrete inputs.
mod Device
mod Line
mod Io
mod Rates
mod Ports
mod Attr
mod Open
mod Ioctl
mod Settings
mod Lines
mod Static
mod Session
mod Events
mod Loop
mod Transfer
mod Lock
mod Parallel
mod Scan
