-- ===== src/Serial/Transfer/Win.antt =====
-- The calls that src/SerialImp.c makes on Windows, where READ, WRITE and tcdrain are those of
-- src/termios.c and the select is left out: an instance of `FileApi` over the state of that file.
-- A call that has not ended with its fuel counts as failed, and changes nothing.
use rxtx.Serial.Events.{EventInfo}
use rxtx.Termios.Ports.{find_port}
use rxtx.Termios.Transfer.Input.{Input}
use rxtx.Termios.Transfer.{serial_write, serial_read}
use rxtx.Termios.State.{Handle}
use rxtx.Termios.Io.{tcdrain, IoApi, tcdrain}
use rxtx.Termios.Comm.{CommApi, Sys}
use rxtx.Base.{ℕ, ◌≡◌, ◌≤◌, refl, none, some, List, Option, Option-cases, ◌++◌, length, inl, inr}
use rxtx.Base.Int.{ℤ, pos, negsuc, pos_part}
use rxtx.Serial.Transfer.{FileApi, Wrote, wrote, failed, read_byte_array}
use rxtx.Serial.Transfer.Order.{Stream, read_byte_array-in_order}
use rxtx.Termios.Transfer.Order.{waiting, serial_read-in_order}

abbrev pub wrote_or_failed : ℤ → Wrote
wrote_or_failed (pos n) = wrote n
wrote_or_failed (negsuc n) = failed

module _ {Dev : Type 0} (api : CommApi Dev) (io : IoApi Dev) (fuel stack : ℕ) (fd : ℤ) where
  abbrev pub win_read : ℕ → Sys Dev → Option (List ℕ) × Sys Dev
  win_read n sys = elim (serial_read api io fuel stack fd n sys) [ none ↦ (none, sys) | some r ↦ r ]

  abbrev pub win_write : List ℕ → Sys Dev → Wrote × Sys Dev
  win_write bytes sys = elim (serial_write api io fuel fd bytes sys) [
    | none ↦ (failed, sys)
    | some (n, sys') ↦ (wrote_or_failed n, sys')
  ]

  abbrev pub win_api : FileApi (Sys Dev)
  win_api = record {
    get_tick_count =
        λ sys. let (now, dev) = io.get_tick_count sys.dev in (now, record sys { dev = dev });
    select = λ sys timeout. (pos 1, sys);
    read = λ sys n. win_read n sys;
    write = λ sys bytes. win_write bytes sys;
    tcdrain = λ sys. let (r, sys') = tcdrain api io fd sys in (wrote_or_failed r, sys');
  }

module _ {Dev : Type 0} (api : CommApi Dev) (io : IoApi Dev) (input : Dev → Handle → List ℕ)
    (law : Input api io input) (fuel stack : ℕ) (fd : ℤ) where
  read_lem :
      (sys : Sys Dev) (n : ℕ) (bytes : List ℕ) (r : Option (Option (List ℕ) × Sys Dev))
      → serial_read api io fuel stack fd n sys ≡ r
      → (win_read api io fuel stack fd n sys).0 ≡ some bytes
      → (waiting api io input law fd sys
          ≡ bytes ++ waiting api io input law fd (win_read api io fuel stack fd n sys).1)
        × (length bytes ≤ n)
  read_lem sys n bytes none e h =
      let clash : none ≡ some bytes = (rw (win_read, e) at h) in absurd cc
  read_lem sys n bytes (some (ret, sys')) e h =
      let gave : ret ≡ some bytes = (rw (win_read, e) at h) in
      rw (win_read, e)
        (serial_read-in_order api io input law fuel stack fd n sys sys' bytes (rw gave at e))

  tick_keeps :
      (sys : Sys Dev)
      → waiting api io input law fd ((win_api api io fuel stack fd).get_tick_count sys).1
        ≡ waiting api io input law fd sys
  tick_keeps sys = elim (Option-cases (find_port fd sys.ports)) [
    | inl lost ↦ rw (waiting, lost) refl
    | inr (p, found) ↦ rw (waiting, found) (law.tick_keeps sys.dev p.hcomm)
  ]

  win_api-Stream : Stream (win_api api io fuel stack fd) (waiting api io input law fd)
  win_api-Stream = record {
    clock_keeps = tick_keeps;
    select_keeps = λ sys timeout. refl;
    read_gives =
        λ sys n bytes h. (read_lem sys n bytes (serial_read api io fuel stack fd n sys) refl h).0;
    read_fits =
        λ sys n bytes h. (read_lem sys n bytes (serial_read api io fuel stack fd n sys) refl h).1;
  }

  -- read_byte_array over serial_read: the bytes that a Java read gets are the first of what waited
  -- at the fd, in their order and no more than were asked for, and what waits afterwards follows
  -- them, whatever the timeout. It needs what serial_read needs of the Win32 calls.
  pub read_byte_array-serial_read :
      (len timeout : ℤ) (eis : EventInfo) (sys : Sys Dev) (bytes : List ℕ)
      → (read_byte_array (win_api api io fuel stack fd) len timeout eis sys).0 ≡ some bytes
      → (waiting api io input law fd sys
          ≡ bytes
            ++ waiting api io input law fd
                (read_byte_array (win_api api io fuel stack fd) len timeout eis sys).2)
        × (length bytes ≤ pos_part len)
  read_byte_array-serial_read len timeout eis sys bytes h =
      read_byte_array-in_order (win_api api io fuel stack fd) (waiting api io input law fd)
        win_api-Stream len timeout eis sys bytes h
