-- ===== src/Termios.antt =====
-- src/termios.c and src/win32termios.h: the termios interface on top of the Win32 comm API.
pub mod Flags
pub mod Rates
pub mod Speed
pub mod State
pub mod Ports
pub mod Comm
pub mod Attr
pub mod Masks
pub mod Raw
pub mod Ioctl
pub mod Open
pub mod Io
pub mod Transfer
