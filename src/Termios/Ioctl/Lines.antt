-- ===== src/Termios/Ioctl/Lines.antt =====
-- The modem lines and the line status, as ioctl of src/termios.c sets and reads them.
use rxtx.Base.{
  suc, ap, sym, ℕ, ◌≡◌, ◌∙◌, ◌-◌, refl, some, Option-cases, bit_and, ◌∙◌, ◌-◌, inl, inr,
}
use rxtx.Base.Int.{pos, minus_one}
use rxtx.Base.Bits.{bit_and_pow}
use rxtx.Termios.Flags.{has, tiocm_dtr, tiocm_rts, tiocm_cts, tiocm_car, tiocm_rng, tiocm_dsr}
use rxtx.Termios.State.{Port}
use rxtx.Termios.Comm.{CommApi, ModemStatus, Sys}
use rxtx.Termios.Attr.{put}
use rxtx.Termios.Attr.Parts.{has-put_self, has-put_other}
use rxtx.Termios.Ports.{find_port, update_from}
use rxtx.Termios.Ports.Update.{find_port-update_from}
use rxtx.Termios.Ioctl.Frame.{ioctl_port-SamePort}
use rxtx.Termios.Ioctl.{
  Arg, tiocmget, tiocmset, modem_bits, clear_errors, set_modem, serve, ioctl_port, ioctl,
}

module _ (status : ModemStatus) (msr arg : ℕ) where
  modem_bits-rts : has (modem_bits status msr arg) tiocm_rts ≡ has msr tiocm_rts
  unfolding modem_bits
  modem_bits-rts = has-put_self _ tiocm_rts _ (bit_and_pow 2 _) refl refl refl

  modem_bits-dtr : has (modem_bits status msr arg) tiocm_dtr ≡ has msr tiocm_dtr
  unfolding modem_bits
  modem_bits-dtr =
      has-put_other _ tiocm_rts tiocm_dtr _ refl refl
      ∙ has-put_self _ tiocm_dtr _ (bit_and_pow 1 _) refl refl refl

  under_outputs :
      (m : ℕ) (x : ℕ)
      → bit_and tiocm_rts m ≡ 0
      → bit_and tiocm_dtr m ≡ 0
      → bit_and (0xffffffff - tiocm_rts) m ≡ m
      → bit_and (0xffffffff - tiocm_dtr) m ≡ m
      → has (put (put x tiocm_dtr (has msr tiocm_dtr)) tiocm_rts (has msr tiocm_rts)) m ≡ has x m
  under_outputs m x a b c d = has-put_other _ tiocm_rts m _ a c ∙ has-put_other x tiocm_dtr m _ b d

  -- TIOCMGET gives the four input lines as GetCommModemStatus reported them, and DTR and RTS as the
  -- port has them stored, whatever the argument pointed to before.
  modem_bits-lines :
      (has (modem_bits status msr arg) tiocm_car ≡ status.rlsd_on)
      × (has (modem_bits status msr arg) tiocm_rng ≡ status.ring_on)
      × (has (modem_bits status msr arg) tiocm_dsr ≡ status.dsr_on)
      × (has (modem_bits status msr arg) tiocm_cts ≡ status.cts_on)
      × (has (modem_bits status msr arg) tiocm_dtr ≡ has msr tiocm_dtr)
      × (has (modem_bits status msr arg) tiocm_rts ≡ has msr tiocm_rts)
  unfolding modem_bits
  modem_bits-lines = (
    under_outputs tiocm_car _ refl refl refl refl
        ∙ has-put_other _ tiocm_cts tiocm_car _ refl refl
        ∙ has-put_other _ tiocm_dsr tiocm_car _ refl refl
        ∙ has-put_other _ tiocm_rng tiocm_car _ refl refl
        ∙ has-put_self _ tiocm_car _ (bit_and_pow 6 _) refl refl refl,
    under_outputs tiocm_rng _ refl refl refl refl
        ∙ has-put_other _ tiocm_cts tiocm_rng _ refl refl
        ∙ has-put_other _ tiocm_dsr tiocm_rng _ refl refl
        ∙ has-put_self _ tiocm_rng _ (bit_and_pow 7 _) refl refl refl,
    under_outputs tiocm_dsr _ refl refl refl refl
        ∙ has-put_other _ tiocm_cts tiocm_dsr _ refl refl
        ∙ has-put_self _ tiocm_dsr _ (bit_and_pow 8 _) refl refl refl,
    under_outputs tiocm_cts _ refl refl refl refl
        ∙ has-put_self _ tiocm_cts _ (bit_and_pow 5 _) refl refl refl,
    modem_bits-dtr,
    modem_bits-rts,
  )

module _ {Dev : Type 0} (api : CommApi Dev) where
  pub clear_errors-msr :
      (p : Port) (dev : Dev)
      → ((clear_errors api p dev).1.msr ≡ p.msr)
        × ((clear_errors api p dev).1.tx_happened ≡ p.tx_happened)
  unfolding clear_errors
  clear_errors-msr p dev = elim (Option-cases (api.clear_comm_error dev p.hcomm).0) [
    | inl e ↦ rw (clear_errors, e) (refl, refl)
    | inr (s, e) ↦ rw (clear_errors, e) (refl, refl)
  ]

  -- DTR and RTS are stored as they were set.
  set_modem-msr :
      (a : Arg) (p : Port) (dev : Dev)
      → (has (set_modem api a p dev).2.msr tiocm_dtr ≡ has a.value tiocm_dtr)
        × (has (set_modem api a p dev).2.msr tiocm_rts ≡ has a.value tiocm_rts)
  unfolding set_modem
  set_modem-msr a p dev = (
    has-put_other _ tiocm_rts tiocm_dtr _ refl refl
        ∙ has-put_self _ tiocm_dtr _ (bit_and_pow 1 _) refl refl refl,
    has-put_self _ tiocm_rts _ (bit_and_pow 2 _) refl refl refl,
  )

  pub set_stores :
      (a : Arg) (p : Port) (dev : Dev)
      → (ioctl_port api tiocmset a p dev).0 ≡ pos 0
      → (has (ioctl_port api tiocmset a p dev).2.msr tiocm_dtr ≡ has a.value tiocm_dtr)
        × (has (ioctl_port api tiocmset a p dev).2.msr tiocm_rts ≡ has a.value tiocm_rts)
  unfolding ioctl_port serve
  set_stores a p dev done = elim (Option-cases (clear_errors api p dev).0) [
    | inl e ↦
        let fails : (ioctl_port api tiocmset a p dev).0 ≡ minus_one = rw (ioctl_port, e) in
        absurd cc
    | inr (s, e) ↦
        rw (ioctl_port, e) (set_modem-msr a (clear_errors api p dev).1 (clear_errors api p dev).2)
  ]

  pub get_reads :
      (a : Arg) (p : Port) (dev : Dev)
      → (ioctl_port api tiocmget a p dev).0 ≡ pos 0
      → (has (ioctl_port api tiocmget a p dev).1.value tiocm_dtr ≡ has p.msr tiocm_dtr)
        × (has (ioctl_port api tiocmget a p dev).1.value tiocm_rts ≡ has p.msr tiocm_rts)
  unfolding ioctl_port serve
  get_reads a p dev done = elim (Option-cases (clear_errors api p dev).0) [
    | inl e ↦
        let fails : (ioctl_port api tiocmget a p dev).0 ≡ minus_one = rw (ioctl_port, e) in
        absurd cc
    | inr (s, e) ↦
        let same = (clear_errors-msr p dev).0 in
        rw (ioctl_port, e)
          (
            modem_bits-dtr _ _ _ ∙ ap (λ m. has m tiocm_dtr) same,
            modem_bits-rts _ _ _ ∙ ap (λ m. has m tiocm_rts) same,
          )
  ]

  -- What TIOCMGET reads after TIOCMSET on the same fd, when both return 0: DTR and RTS as they were
  -- set, whatever the second argument held.
  pub tiocmget-tiocmset :
      (fd : ℕ) (p : Port) (sys : Sys Dev) (a b : Arg)
      → find_port (pos (suc fd)) sys.ports ≡ some p
      → (ioctl api (pos (suc fd)) tiocmset a sys).0 ≡ pos 0
      → (ioctl api (pos (suc fd)) tiocmget b (ioctl api (pos (suc fd)) tiocmset a sys).2).0 ≡ pos 0
      → let read =
          (ioctl api
            (pos (suc fd))
            tiocmget
            b
            (ioctl api (pos (suc fd)) tiocmset a sys).2).1.value in
        (has read tiocm_dtr ≡ has a.value tiocm_dtr) × (has read tiocm_rts ≡ has a.value tiocm_rts)
  unfolding ioctl
  tiocmget-tiocmset fd p sys a b found done read =
      let (r, a', q, dev') = ioctl_port api tiocmset a p sys.dev in
      let result : Sys Dev = record { ports = update_from p.fd q sys.ports; dev = dev' } in
      let run : ioctl api (pos (suc fd)) tiocmset a sys ≡ (r, a', result) = rw found in
      let after =
        find_port-update_from (suc fd) p q sys.ports found
          (ioctl_port-SamePort api tiocmset a p sys.dev).same_fd in
      let again : ((ioctl api (pos (suc fd)) tiocmget b result).0
            ≡ (ioctl_port api tiocmget b q dev').0)
          × ((ioctl api (pos (suc fd)) tiocmget b result).1
              ≡ (ioctl_port api tiocmget b q dev').1) =
        (rw after, rw after) in
      let stored = set_stores a p sys.dev (ap (λ x. x.0) (sym run) ∙ done) in
      let back =
        get_reads b q dev'
          (sym again.0 ∙ ap (λ x. (ioctl api (pos (suc fd)) tiocmget b x.2).0) (sym run) ∙ read) in
      let value =
        ap (λ x. (ioctl api (pos (suc fd)) tiocmget b x.2).1.value) run
        ∙ ap (λ x. x.value) again.1 in
      (
        ap (λ x. has x tiocm_dtr) value ∙ back.0 ∙ stored.0,
        ap (λ x. has x tiocm_rts) value ∙ back.1 ∙ stored.1,
      )
