-- ===== src/Serial/Lines/Laws.antt =====
-- DTR and RTS as setDTR and setRTS of src/SerialImp.c leave them.
use rxtx.Base.{ℕ, suc, ◌≡◌, refl, ◌∙◌, ap, Bool, some}
use rxtx.Base.Int.{pos}
use rxtx.Base.Bits.{bit_and_pow}
use rxtx.Termios.Flags.{has, tiocm_dtr, tiocm_rts}
use rxtx.Termios.State.{Port, Handle}
use rxtx.Termios.Comm.{CommApi, CommError, Sys}
use rxtx.Termios.Ports.{find_port}
use rxtx.Termios.Attr.{put}
use rxtx.Termios.Attr.Parts.{has-put_self, has-put_other}
use rxtx.Termios.Ioctl.{Arg, tiocmget, tiocmset, clear_errors, serve, ioctl_port, ioctl, set_modem}
use rxtx.Termios.Ioctl.Frame.{ioctl-found}
use rxtx.Termios.Ioctl.Lines.{set_stores, get_reads, clear_errors-msr}
use rxtx.Serial.Lines.{int_arg, read_lines, is_line, set_line, is_dtr, is_rts, set_dtr}

-- A device on which ClearCommError does not fail.
abbrev pub Answers : {Dev : Type 0} → CommApi Dev → Type 0
Answers {Dev} api =
    (d : Dev) (h : Handle) → (s : CommError) × ((api.clear_comm_error d h).0 ≡ some s)

module _ {Dev : Type 0} (api : CommApi Dev) (answers : Answers api) where
  answered : (p : Port) (dev : Dev) → (s : CommError) × ((clear_errors api p dev).0 ≡ some s)
  unfolding clear_errors
  answered p dev = let (s, e) = answers dev p.hcomm in (s, rw (clear_errors, e))

  mget_done :
      (a : Arg) (p : Port) (dev : Dev)
      → ((ioctl_port api tiocmget a p dev).0 ≡ pos 0)
        × ((ioctl_port api tiocmget a p dev).2.msr ≡ p.msr)
  unfolding ioctl_port serve
  mget_done a p dev =
      let (s, e) = answered p dev in
      (rw (ioctl_port, e), rw (ioctl_port, e) (clear_errors-msr api p dev).0)

  mset_done : (a : Arg) (p : Port) (dev : Dev) → (ioctl_port api tiocmset a p dev).0 ≡ pos 0
  unfolding ioctl_port serve set_modem
  mset_done a p dev = let (s, e) = answered p dev in rw (ioctl_port, e)

  -- What is read, whatever the int held before, and the port that is then found.
  pub mget_found :
      (ints fd : ℕ) (p : Port) (sys : Sys Dev)
      → find_port (pos (suc fd)) sys.ports ≡ some p
      → let (r, a, sys') = ioctl api (pos (suc fd)) tiocmget (int_arg ints) sys in
        (has a.value tiocm_dtr ≡ has p.msr tiocm_dtr)
        × (has a.value tiocm_rts ≡ has p.msr tiocm_rts)
        × ((q : Port) × (find_port (pos (suc fd)) sys'.ports ≡ some q) × (q.msr ≡ p.msr))
  mget_found ints fd p sys found =
      let (run, after) = ioctl-found api fd tiocmget (int_arg ints) p sys found in
      let (done, same) = mget_done (int_arg ints) p sys.dev in
      let (dtr, rts) = get_reads api (int_arg ints) p sys.dev done in
      let q = (ioctl_port api tiocmget (int_arg ints) p sys.dev).2 in
      (
        ap (λ r. has r.1.value tiocm_dtr) run ∙ dtr,
        ap (λ r. has r.1.value tiocm_rts) run ∙ rts,
        (q, ap (λ r. find_port (pos (suc fd)) r.2.ports) run ∙ after, same),
      )

  pub read_lines-found :
      (fd : ℕ) (p : Port) (sys : Sys Dev)
      → find_port (pos (suc fd)) sys.ports ≡ some p
      → let (v, sys') = read_lines api (pos (suc fd)) sys in
        (has v tiocm_dtr ≡ has p.msr tiocm_dtr)
        × (has v tiocm_rts ≡ has p.msr tiocm_rts)
        × ((q : Port) × (find_port (pos (suc fd)) sys'.ports ≡ some q) × (q.msr ≡ p.msr))
  unfolding read_lines
  read_lines-found fd p sys found = mget_found 0 fd p sys found

  -- What a port holds after an ioctl that sets the lines.
  pub mset_found :
      (fd : ℕ) (a : Arg) (p : Port) (sys : Sys Dev)
      → find_port (pos (suc fd)) sys.ports ≡ some p
      → (q : Port) × (find_port (pos (suc fd)) (ioctl api (pos (suc fd)) tiocmset a sys).2.ports
          ≡ some q)
        × (has q.msr tiocm_dtr ≡ has a.value tiocm_dtr)
        × (has q.msr tiocm_rts ≡ has a.value tiocm_rts)
  mset_found fd a p sys found =
      let (run, after) = ioctl-found api fd tiocmset a p sys found in
      let (dtr, rts) = set_stores api a p sys.dev (mset_done a p sys.dev) in
      (_, ap (λ r. find_port (pos (suc fd)) r.2.ports) run ∙ after, dtr, rts)

  -- On an open port whose device answers, setDTR makes isDTR return the new state and leaves what
  -- isRTS returns.
  is_dtr-set_dtr :
      (fd : ℕ) (p : Port) (sys : Sys Dev) (state : Bool)
      → find_port (pos (suc fd)) sys.ports ≡ some p
      → let sys' = set_dtr api (pos (suc fd)) state sys in
        ((is_dtr api (pos (suc fd)) sys').0 ≡ state)
        × ((is_rts api (pos (suc fd)) sys').0 ≡ (is_rts api (pos (suc fd)) sys).0)
  unfolding set_dtr is_dtr is_rts is_line set_line
  is_dtr-set_dtr fd p sys state found =
      let (dtr, rts, (q, then, same)) = read_lines-found fd p sys found in
      let (v, sys1) = read_lines api (pos (suc fd)) sys in
      let arg = int_arg (put v tiocm_dtr state) in
      let (r, after, dtr', rts') = mset_found fd arg q sys1 then in
      let (dtr'', rts'', _) =
        read_lines-found fd r (ioctl api (pos (suc fd)) tiocmset arg sys1).2 after in
      (
        dtr'' ∙ dtr' ∙ has-put_self v tiocm_dtr state (bit_and_pow 1 v) refl refl refl,
        rts'' ∙ rts' ∙ has-put_other v tiocm_dtr tiocm_rts state refl refl,
      )
