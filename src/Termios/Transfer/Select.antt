-- ===== src/Termios/Transfer/Select.antt =====
-- serial_select of src/termios.c after termios_interrupt_event_loop, and the flags of fcntl.
use rxtx.Termios.Ioctl.{clear_errors}
use rxtx.Termios.Transfer.{serial_select, select_port, select_wait}
use rxtx.Termios.Ports.{find_port, update_from}
use rxtx.Termios.Comm.{CommApi, Sys}
use rxtx.Termios.State.{Port}
use rxtx.Base.{
  ℕ, suc, ◌≡◌, ◌≢◌, refl, ◌∙◌, ap, some, true, false, inl, inr, arith, ◌==◌, Option-cases,
}
use rxtx.Base.Int.{pos}
use rxtx.Termios.Io.{
  fcntl, f_setfl, f_getfl, termios_interrupt_event_loop, IoApi, write_event, select_event,
  read_event,
}
use rxtx.Base.{ap, refl, ◌∙◌, inl, inr, some}
use rxtx.Termios.Ports.Update.{find_port-update_from}

-- F_GETFL returns the flags that F_SETFL stored on the same fd, and the port of the fd differs from
-- before in these flags alone.
fcntl-getfl-setfl :
    {Dev : Type 0} (n flags arg : ℕ) (p : Port) (sys : Sys Dev)
    → find_port (pos (suc n)) sys.ports ≡ some p
    → let sys' = (fcntl (pos (suc n)) f_setfl flags sys).1 in
      ((fcntl (pos (suc n)) f_getfl arg sys').0 ≡ pos flags)
      × (find_port (pos (suc n)) sys'.ports ≡ some (record p { open_flags = flags }))
unfolding fcntl
fcntl-getfl-setfl n flags arg p sys found =
    let q : Port = record p { open_flags = flags } in
    let found' = find_port-update_from (suc n) p q sys.ports found refl in
    rw (fcntl, found) (rw (fcntl, found') (refl, refl))

module _ {Dev : Type 0} (api : CommApi Dev) (io : IoApi Dev) where
  -- The three events are reset, and the errors read.
  abbrev pub prepared : Port → Dev → Dev
  prepared p dev =
      let dev1 = io.reset_event dev p.hcomm write_event in
      let dev2 = io.reset_event dev1 p.hcomm select_event in
      (api.clear_comm_error (io.reset_event dev2 p.hcomm read_event) p.hcomm).1

  clear_errors-interrupt :
      (p : Port) (dev : Dev) → (clear_errors api p dev).1.interrupt ≡ p.interrupt
  unfolding clear_errors
  clear_errors-interrupt p dev = elim (Option-cases (api.clear_comm_error dev p.hcomm).0) [
    | inl e ↦ rw (clear_errors, e) refl
    | inr (s, e) ↦ rw (clear_errors, e) refl
  ]

  clear_errors-dev :
      (p : Port) (dev : Dev) → (clear_errors api p dev).2 ≡ (api.clear_comm_error dev p.hcomm).1
  unfolding clear_errors
  clear_errors-dev p dev = elim (Option-cases (api.clear_comm_error dev p.hcomm).0) [
    | inl e ↦ rw (clear_errors, e) refl
    | inr (s, e) ↦ rw (clear_errors, e) refl
  ]

  interrupted_wait :
      (p : Port) (dev : Dev) → p.interrupt ≡ 1 → select_wait api io p dev ≡ (true, p, dev)
  unfolding select_wait
  interrupted_wait p dev on =
      let hit : (p.interrupt == 1) ≡ true = ground arith in rw (select_wait, hit) refl

  interrupted_port :
      (q : Port) (dev : Dev)
      → q.interrupt ≡ 1
      → ((select_port api io q dev).0 ≡ true) × ((select_port api io q dev).2 ≡ prepared q dev)
  unfolding select_port
  interrupted_port q dev on =
      let dev1 = io.reset_event dev q.hcomm write_event in
      let dev2 = io.reset_event dev1 q.hcomm select_event in
      let dev3 = io.reset_event dev2 q.hcomm read_event in
      let (stat, q', dev4) = clear_errors api q dev3 in
      elim (Option-cases stat) [
        | inl e ↦ rw (select_port, e) (refl, clear_errors-dev q dev3)
        | inr (s, e) ↦
            let at_once = interrupted_wait q' dev4 (clear_errors-interrupt q dev3 ∙ on) in
            (
              rw (select_port, e) (ap (λ r. r.0) at_once),
              rw (select_port, e) (ap (λ r. r.2) at_once ∙ clear_errors-dev q dev3),
            )
      ]

  interrupted_select :
      (n : ℕ) (q : Port) (sys : Sys Dev)
      → find_port (pos (suc n)) sys.ports ≡ some q
      → (q.event_flag == 0) ≡ false
      → q.interrupt ≡ 1
      → let (ret, sys') = serial_select api io (pos (suc n)) sys in
        (ret ≡ true) × (sys'.dev ≡ prepared q sys.dev)
  unfolding serial_select
  interrupted_select n q sys found listens on =
      let (ret, q', dev') = select_port api io q sys.dev in
      let (one, at_once) = interrupted_port q sys.dev on in
      rw (serial_select, found, listens) (one, at_once)

  -- After termios_interrupt_event_loop with 1, serial_select on that fd, when the port listens for
  -- events, returns 1 without waiting: of the devices it only resets the events and reads the
  -- errors.
  pub serial_select-interrupted :
      (n : ℕ) (p : Port) (sys : Sys Dev)
      → find_port (pos (suc n)) sys.ports ≡ some p
      → p.event_flag ≢ 0
      → let (ret, sys') =
          serial_select api io (pos (suc n)) (termios_interrupt_event_loop (pos (suc n)) 1 sys) in
        (ret ≡ true) × (sys'.dev ≡ prepared p sys.dev)
  unfolding termios_interrupt_event_loop
  serial_select-interrupted n p sys found listens =
      let q : Port = record p { interrupt = 1 } in
      let ports = update_from p.fd q sys.ports in
      let marked : termios_interrupt_event_loop (pos (suc n)) 1 sys ≡ record sys { ports = ports } =
        rw (termios_interrupt_event_loop, found) refl in
      let found' = find_port-update_from (suc n) p q sys.ports found refl in
      let some_flag : (p.event_flag == 0) ≡ false = ground arith in
      rw marked (interrupted_select n q (record sys { ports = ports }) found' some_flag refl)
