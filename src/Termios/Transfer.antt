-- ===== src/Termios/Transfer.antt =====
-- serial_write, serial_read and serial_select of src/termios.c. The waiting loops run on fuel, and
-- `none` is a loop that has not ended. The bytes that are read are the ones stored at the front of
-- the caller's buffer.
pub mod Input
pub mod Rounds
pub mod Order
pub mod Returns
pub mod Write
pub mod Select
use rxtx.Base.{
  ℕ, zero, suc, ◌+◌, ◌*◌, ◌-◌, ◌==◌, ltb, leb, if◌then◌else◌, Bool, true, false, not, ◌&&◌, ◌||◌,
  Option, some, none, List, [], ◌∷◌, ◌++◌, length, get_or, bit_or, ◌>>=◌,
}
use rxtx.Base.Int.{ℤ, pos, negsuc, minus_one, is_nonpos}
use rxtx.Termios.Flags.{has, o_nonblock, vtime}
use rxtx.Termios.State.{Port}
use rxtx.Termios.Comm.{CommApi, CommError, Sys}
use rxtx.Termios.Ports.{Ports, find_port, update_from}
use rxtx.Termios.Ioctl.{clear_errors}
use rxtx.Termios.Io.{
  ReadFile, read_done, more_data, broken_pipe, read_pending, read_failed, WriteFile, write_done,
  write_pending, write_failed, Overlapped, complete, incomplete, broken, Wait, wait_object,
  wait_timeout, wait_abandoned, write_event, select_event, read_event, IoApi, mask_tx, read_errors,
}

-- What follows one round of the loop of serial_read; `stop_errors` reads the errors first.
pub data Next : Type 0 where
  go_on stop stop_errors give_up : Next

abbrev pub count_or_error : Option ℕ → ℤ
count_or_error none = minus_one
count_or_error (some n) = pos n

-- `c_cc[VTIME] && now - start >= c_cc[VTIME] * 100`
abbrev pub timed_out : Port → ℕ → ℕ → Bool
timed_out p start now =
    let time = get_or p.ttyset.c_cc vtime 0 in not (time == 0) && leb (start + time * 100) now

-- The bytes waiting; `stack` when ClearErrors failed and left the structure alone.
abbrev pub in_queue : ℕ → Option CommError → ℕ
in_queue stack none = stack
in_queue stack (some stat) = stat.cb_in_que

module _ {Dev : Type 0} (api : CommApi Dev) (io : IoApi Dev) where
  -- `while( !GetOverlappedResult )` of serial_write, `some none` being the result -1.
  unfoldable pub await_write : ℕ → Port → Dev → Option (Option ℕ × Dev)
  await_write zero p dev = none
  await_write (suc fuel) p dev =
      let (ret, dev') = io.write_result dev p.hcomm in
      let again = await_write fuel p dev' in
      elim ret [
        | complete n ↦ some (some n, dev')
        | incomplete ↦ again
        | broken ↦ some (none, dev')
      ]

  -- What WriteFile comes to; a WriteFile that fails is followed by a wait.
  unfoldable pub write_bytes : ℕ → List ℕ → Port → Dev → Option (Option ℕ × Dev)
  unfolding await_write
  write_bytes fuel bytes p dev =
      let (ret, dev1) = io.write_file dev p.hcomm bytes in
      let dev2 = (io.wait_for dev1 p.hcomm write_event).1 in
      elim ret [
        | write_done n ↦ some (some n, dev1)
        | write_pending ↦ await_write fuel p dev2
        | write_failed ↦ some (none, dev2)
      ]

  unfoldable pub write_port : ℕ → List ℕ → Port → Dev → Option (ℤ × Port × Dev)
  unfolding write_bytes
  write_port fuel bytes p dev = do
    (ret, dev') ← write_bytes fuel bytes p (io.reset_event dev p.hcomm write_event)
    some (count_or_error ret, record p { tx_happened = 1 }, mask_tx api io p dev')

  unfoldable pub serial_write : ℕ → ℤ → List ℕ → Sys Dev → Option (ℤ × Sys Dev)
  unfolding write_port
  serial_write fuel fd bytes sys =
      if is_nonpos fd then some (pos 0, sys) else elim (find_port fd sys.ports) [
        | none ↦ some (minus_one, sys)
        | some p ↦ do
          (ret, p', dev') ← write_port fuel bytes p sys.dev
          some (ret, record { ports = update_from p.fd p' sys.ports; dev = dev' })
      ]

  -- The loop with O_NONBLOCK, until there are `size` bytes; `false` is a read timeout.
  unfoldable pub wait_queue : ℕ → ℕ → ℕ → ℕ → Port → Dev → Option (Bool × Port × Dev)
  wait_queue zero start size stack p dev = none
  wait_queue (suc fuel) start size stack p dev =
      let (stat, p', dev1) = clear_errors api p dev in
      let (now, dev2) = io.get_tick_count dev1 in
      let waiting = in_queue stack stat in
      let again = wait_queue fuel start size waiting p' dev2 in
      if timed_out p' start now
      then some (false, p', dev2)
      else if ltb waiting size && ltb 1 size
      then again
      else some (true, p', dev2)

  -- The loop without it, until the clock has reached `end`.
  unfoldable pub wait_clock : ℕ → ℕ → Port → Dev → Option (Port × Dev)
  wait_clock zero end p dev = none
  wait_clock (suc fuel) end p dev =
      let (p', dev1) = read_errors api io p dev in
      let (now, dev2) = io.clock dev1 in
      let again = wait_clock fuel end p' dev2 in if ltb now end then again else some (p', dev2)

  -- Whether reading goes on after the wait.
  unfoldable pub wait_input : ℕ → ℕ → ℕ → ℕ → Port → Dev → Option (Bool × Port × Dev)
  unfolding wait_queue wait_clock
  wait_input fuel start size stack p dev =
      if has p.open_flags o_nonblock then wait_queue fuel start size stack p dev else do
        let (now, dev') = io.clock dev
        (p', dev'') ← wait_clock fuel (now + get_or p.ttyset.c_cc vtime 0) p dev'
        some (true, p', dev'')

  -- `while( !GetOverlappedResult )` of serial_read, `some none` being the way out.
  unfoldable pub await_read : ℕ → ℕ → Port → Dev → Option (Option (List ℕ) × Dev)
  await_read zero size p dev = none
  await_read (suc fuel) size p dev =
      let (ret, dev') = io.read_result dev p.hcomm size in
      let again = await_read fuel size p dev' in
      elim ret [
        | complete bytes ↦ some (some bytes, dev')
        | incomplete ↦ again
        | broken ↦ some (none, dev')
      ]

  unfoldable pub after_await : ℕ → ℕ → Port → Option (List ℕ) × Dev → Next × List ℕ × Dev
  after_await start size p (none, dev) = (stop_errors, [], dev)
  after_await start size p (some bytes, dev) =
      let (now, dev') = io.get_tick_count dev in
      if not (ltb (length bytes) size)
      then (go_on, bytes, dev)
      else if timed_out p start now
      then (stop, bytes, dev')
      else (go_on, bytes, dev')

  unfoldable pub read_step : ℕ → ℕ → ℕ → Port → Dev → Option (Next × List ℕ × Dev)
  unfolding await_read after_await
  read_step fuel start size p dev =
      let (ret, dev') = io.read_file (io.reset_event dev p.hcomm read_event) p.hcomm size in
      elim ret [
        | read_done bytes ↦ some (stop_errors, bytes, dev')
        | more_data bytes ↦ some (go_on, bytes, dev')
        | broken_pipe bytes ↦ some (go_on, bytes, dev')
        | read_pending ↦ do r ← await_read fuel size p dev'; some (after_await start size p r)
        | read_failed ↦ some (give_up, [], dev')
      ]

  -- The end of the round: `again` is the rest of the loop.
  unfoldable pub end_round :
      (List ℕ → Dev → Option (Option (List ℕ) × Port × Dev))
      → List ℕ
      → Port
      → Next × List ℕ × Dev
      → Option (Option (List ℕ) × Port × Dev)
  end_round again got p (go_on, bytes, dev) = again bytes dev
  end_round again got p (stop, bytes, dev) = some (some (got ++ bytes), p, dev)
  end_round again got p (stop_errors, bytes, dev) =
      let (p', dev') = read_errors api io p dev in some (some (got ++ bytes), p', dev')
  end_round again got p (give_up, bytes, dev) = some (none, p, dev)

  -- `some none` as the first part is the result -1.
  unfoldable pub read_rounds :
      ℕ → ℕ → ℕ → List ℕ → Port → Dev → Option (Option (List ℕ) × Port × Dev)
  unfolding read_step end_round
  read_rounds zero start size got p dev = none
  read_rounds (suc fuel) start size got p dev =
      let again = λ (bytes : List ℕ) (dev' : Dev).
        read_rounds fuel start (size - length bytes) (got ++ bytes) p dev' in
      if size == 0
      then some (some got, p, dev)
      else do r ← read_step fuel start size p dev; end_round again got p r

  unfoldable pub read_port : ℕ → ℕ → ℕ → ℕ → Port → Dev → Option (Option (List ℕ) × Port × Dev)
  unfolding wait_input read_rounds
  read_port fuel start size stack p dev = do
    (ready, p', dev') ← wait_input fuel start size stack p dev
    if ready then read_rounds fuel start size [] p' dev' else some (some [], p', dev')

  -- A negative size reads nothing, as 0 does; `none` as the first part is the result -1.
  unfoldable pub serial_read : ℕ → ℕ → ℤ → ℕ → Sys Dev → Option (Option (List ℕ) × Sys Dev)
  unfolding read_port
  serial_read fuel stack fd size sys =
      let (start, dev) = io.get_tick_count sys.dev in
      let sys' : Sys Dev = record sys { dev = dev } in
      if is_nonpos fd then some (some [], sys') else elim (find_port fd sys.ports) [
        | none ↦ some (none, sys')
        | some p ↦ do
          (ret, p', dev') ← read_port fuel start size stack p dev
          some (ret, record { ports = update_from p.fd p' sys.ports; dev = dev' })
      ]

  -- From SetCommMask to the switch on what WaitForSingleObject returned; `true` is the result 1,
  -- which stands for an event and for a failure.
  unfoldable pub select_wait : Port → Dev → Bool × Port × Dev
  select_wait p dev =
      if p.interrupt == 1
      then (true, p, dev)
      else let dev1 = (api.set_comm_mask dev p.hcomm p.event_flag).1 in
        let (p2, dev2) = read_errors api io p dev1 in
        let (begun, dev3) = io.wait_comm_event dev2 p2.hcomm in
        let (p4, dev4) = read_errors api io p2 dev3 in
        let (ret, dev5) = io.wait_for dev4 p4.hcomm select_event in
        if not begun then (true, p4, dev4) else elim ret [
          | wait_object ↦ (true, p4, dev5)
          | wait_timeout ↦ (false, p4, dev5)
          | wait_abandoned ↦ (true, p4, dev5)
        ]

  unfoldable pub select_port : Port → Dev → Bool × Port × Dev
  unfolding select_wait
  select_port p dev =
      let dev1 = io.reset_event dev p.hcomm write_event in
      let dev2 = io.reset_event dev1 p.hcomm select_event in
      let dev3 = io.reset_event dev2 p.hcomm read_event in
      let (stat, p', dev4) = clear_errors api p dev3 in
      elim stat [ none ↦ (true, p', dev4) | some s ↦ select_wait p' dev4 ]

  -- serial_select on one fd, which is its first argument less 1; the sets and the timeout are not
  -- read.
  unfoldable pub serial_select : ℤ → Sys Dev → Bool × Sys Dev
  unfolding select_port
  serial_select fd sys = if is_nonpos fd then (true, sys) else elim (find_port fd sys.ports) [
    | none ↦ (false, sys)
    | some p ↦
        if p.event_flag == 0
        then (false, sys)
        else let (ret, p', dev') = select_port p sys.dev in
          (ret, record { ports = update_from p.fd p' sys.ports; dev = dev' })
  ]
