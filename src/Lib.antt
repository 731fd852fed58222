-- ===== src/Lib.antt =====
-- A model of the C side of RXTX, the native library behind gnu.io serial ports.
--
-- src/termios.c gives the Windows build a POSIX terminal interface over the Win32 comm API;
-- src/SerialImp.c is the JNI side, which calls that interface. The modules of Termios follow the
-- first file and those of Serial the second:
--   Termios.Flags, Termios.Rates   the constants of src/win32termios.h
--   Termios.State                  struct termios_list (`Port`), struct termios, the DCB
--   Termios.Comm                   the Win32 calls, a parameter `CommApi`, and what is known of them
--   Termios.Speed                  CBR_to_B, B_to_CBR, bytesize_to_termios, termios_to_bytesize
--   Termios.Ports                  the list first_tl: find_port, port_opened, get_free_fd, add_port
--   Termios.Attr                   termios_to_DCB, DCB_to_termios, tcgetattr, tcsetattr
--   Termios.Raw                    cfsetospeed and its variants, cfmakeraw, init_termios
--   Termios.Ioctl                  ClearErrors and ioctl
--   Termios.Open                   open_port, serial_open, serial_close
--   Termios.Io                     the calls on queues and flags: tcdrain, tcflush, tcsendbreak, fcntl,
--                                  termios_setflags; the rest of the Win32 calls, `IoApi`; get_fd
--   Termios.Transfer               serial_read, serial_write, serial_select
--   Serial.Speed                   translate_speed and get_java_baudrate
--   Serial.Params                  the Java constants against the flags of c_cflag
--   Serial.Native                  configure_port, set_port_params, set_java_vars, setflowcontrol
--   Serial.Lines                   isDTR and its like, setDTR, setRTS, setDSR
--   Serial.Events                  send_event and the checks of report_serial_events
--   Serial.Transfer                read_byte_array, readByte, readArray, the loops of writeByte,
--                                  writeArray and nativeDrain, over the calls `FileApi`
--   Serial.Transfer.Win            `FileApi` as serial_read, serial_write and tcdrain give it
--   Serial.Transfer.Terminated     readTerminatedArray
--   Serial.Transfer.Drain          nativeDrain
--   Serial.Loop                    eventLoop, interruptEventLoop, nativeSetEventFlag; the moves of all
--                                  threads, in any order, are Serial.Loop.Steps
--   Serial.Session                 open, nativeClose, nativeavailable, the receive timeout
--   Serial.Preopened               static_add_filename, find_preopened_ports, on a store of nodes
--   Serial.Static                  nativeStaticSetDTR and its like, nativeStaticIsDTR and its like,
--                                  nativeStaticGetBaudRate and its like
--   Serial.Custom                  parity error and end of input characters
--   Serial.Custom.Speeds           baud base and divisor, in a build with TIOCGSERIAL
--   Serial.Lock, Serial.Text       fhs_lock, fhs_unlock, is_device_locked, check_lock_pid, one call
--                                  at a time, with Linux's names, over the files `Files`
--   Serial.Lock.Steps              the system calls of fhs_lock, two processes in turns
--   Serial.Lock.Uucp               uucp_lock, uucp_unlock
--   Serial.Scan                    testRead, isPortPrefixValid, in the Linux build
--   Parallel                       src/ParallelImp.c in the Windows build: the status of the printer,
--                                  open, writeArray, read_byte_array, eventLoop; its select is
--                                  serial_select of Termios.Transfer
-- The modules below these hold the proofs, each named for what it is about; Base holds the shared
-- names and lemmas; Tests runs the functions on a loopback device.
--
-- A function of the source has the same name here, in lower case. Its state is passed explicitly:
-- `Sys` holds the list of ports and the state of all devices. The linked list of ports is the
-- sequence of its entries, and a write through a pointer to an entry changes it in place. A C int
-- that can be negative is an integer of Base.Int; unsigned values and flags are natural numbers
-- below 2^32, and a complement is taken in 32 bits. A Win32 call that fails returns `none` or
-- `false`. Printed reports and my_errno are left out. Memory is taken to be there. The loops are
-- walks along a list, but for these. The counting loops of check_cgi_count run on fuel, 2^32 rounds,
-- which is enough as a counter of 32 bits meets every value before. The loops of writeByte and
-- writeArray have no bound in the source: they run on any fuel, and more fuel than there are
-- interruptions in a row is enough. The loop of read_byte_array is bounded by its 20 rounds.
-- serial_read has one fuel for its rounds and for each of its waits: more rounds than bytes asked
-- for is enough when the waits end. The walks along the preopened ports, whose pointers can dangle,
-- run on fuel too: more rounds than nodes is enough. writeArray of the parallel port runs on any fuel
-- as well: a printer can keep it from ending, and 21 rounds are enough for one that refuses all.
--
-- Not modelled: the drain thread of src/SerialImp.c, the lock server and the library lockdev, the
-- JNI access to Java fields, the Java classes and the C++ variants, which are other programs or
-- plain input and output.
pub mod Base
pub mod Termios
pub mod Serial
pub mod Parallel
pub mod Tests
