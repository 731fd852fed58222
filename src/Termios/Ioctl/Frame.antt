-- ===== src/Termios/Ioctl/Frame.antt =====
-- What no ioctl of src/termios.c changes, and the two ways in which it answers.
use rxtx.Termios.Ports.Update.{find_port-update_from}
use rxtx.Base.Int.{pos}
use rxtx.Termios.Ports.{find_port, update_from}
use rxtx.Base.{◌≡◌, refl, inl, inr, Option-cases, Bool-cases, ◌∙◌, ◌==◌, ◌&&◌, ℕ, suc, some}
use rxtx.Termios.State.{Port, Counters}
use rxtx.Termios.Comm.{CommApi, Sys}
use rxtx.Termios.Ioctl.{
  tiocmget, tiocmset, tiocserconfig, tiocsergetlsr, tiocgicount, tiocser_wild, fionread,
  unsupported, count_errors, Arg, clear_errors, get_lsr, serve, ioctl_port, set_modem, Request,
  ioctl,
}

-- The fields of a port by which the other operations find and address it.
pub record SamePort (p q : Port) : Type 0 where
  pub same_name : q.filename ≡ p.filename
  pub same_fd : q.fd ≡ p.fd
  pub same_hcomm : q.hcomm ≡ p.hcomm
  pub same_ttyset : q.ttyset ≡ p.ttyset
  pub same_mask : q.event_flag ≡ p.event_flag

abbrev pub keeps : (p : Port) → SamePort p p
keeps p = record {
  same_name = refl;
  same_fd = refl;
  same_hcomm = refl;
  same_ttyset = refl;
  same_mask = refl;
}

pub SamePort-trans : {p q r : Port} → SamePort p q → SamePort q r → SamePort p r
SamePort-trans pq qr = record {
  same_name = qr.same_name ∙ pq.same_name;
  same_fd = qr.same_fd ∙ pq.same_fd;
  same_hcomm = qr.same_hcomm ∙ pq.same_hcomm;
  same_ttyset = qr.same_ttyset ∙ pq.same_ttyset;
  same_mask = qr.same_mask ∙ pq.same_mask;
}

with_counts : (p : Port) (sis : Counters) → SamePort p (record p { sis = sis })
with_counts p sis = record {
  same_name = refl;
  same_fd = refl;
  same_hcomm = refl;
  same_ttyset = refl;
  same_mask = refl;
}

with_tx : (p : Port) (n : ℕ) → SamePort p (record p { tx_happened = n })
with_tx p n = record {
  same_name = refl;
  same_fd = refl;
  same_hcomm = refl;
  same_ttyset = refl;
  same_mask = refl;
}

with_msr : (p : Port) (n : ℕ) → SamePort p (record p { msr = n })
with_msr p n = record {
  same_name = refl;
  same_fd = refl;
  same_hcomm = refl;
  same_ttyset = refl;
  same_mask = refl;
}

module _ {Dev : Type 0} (api : CommApi Dev) where
  pub clear_errors-SamePort : (p : Port) (dev : Dev) → SamePort p (clear_errors api p dev).1
  unfolding clear_errors
  clear_errors-SamePort p dev = elim (Option-cases (api.clear_comm_error dev p.hcomm).0) [
    | inl e ↦ rw (clear_errors, e) (keeps p)
    | inr (s, e) ↦ rw (clear_errors, e) (with_counts p (count_errors s p.sis))
  ]

  get_lsr-SamePort : (a : Arg) (p : Port) (dev : Dev) → SamePort p (get_lsr api a p dev).2
  unfolding get_lsr
  get_lsr-SamePort a p dev =
      let q = (clear_errors api p dev).1 in
      let cleared = clear_errors-SamePort p dev in
      elim (Option-cases (clear_errors api p dev).0) [
        | inl e ↦ rw (get_lsr, e) cleared
        | inr (s, e) ↦ elim (Bool-cases (s.cb_out_que == 0 && q.tx_happened == 1)) [
          | inl sent ↦ rw (get_lsr, e, sent) (SamePort-trans cleared (with_tx q 0))
          | inr busy ↦ rw (get_lsr, e, busy) cleared
        ]
      ]

  serve-SamePort :
      (request : Request) (a : Arg) (p : Port) (dev : Dev)
      → SamePort p (serve api request a p dev).2
  unfolding serve set_modem
  serve-SamePort tiocmget a p dev = keeps p
  serve-SamePort tiocmset a p dev = with_msr p _
  serve-SamePort tiocserconfig a p dev = get_lsr-SamePort a p dev
  serve-SamePort tiocsergetlsr a p dev = get_lsr-SamePort a p dev
  serve-SamePort tiocgicount a p dev = elim (Option-cases (clear_errors api p dev).0) [
    | inl e ↦ rw (serve, e) (clear_errors-SamePort p dev)
    | inr (s, e) ↦ rw (serve, e) (clear_errors-SamePort p dev)
  ]
  serve-SamePort tiocser_wild a p dev = keeps p
  serve-SamePort fionread a p dev = elim (Option-cases (clear_errors api p dev).0) [
    | inl e ↦ rw (serve, e) (clear_errors-SamePort p dev)
    | inr (s, e) ↦ rw (serve, e) (clear_errors-SamePort p dev)
  ]
  serve-SamePort unsupported a p dev = keeps p

  -- No request changes the name, the fd, the handle, the settings or the event mask of the port.
  pub ioctl_port-SamePort :
      (request : Request) (a : Arg) (p : Port) (dev : Dev)
      → SamePort p (ioctl_port api request a p dev).2
  unfolding ioctl_port
  ioctl_port-SamePort request a p dev =
      let (stat, q, dev') = clear_errors api p dev in
      elim (Option-cases stat) [
        | inl e ↦ rw (ioctl_port, e) (clear_errors-SamePort p dev)
        | inr (s, e) ↦
            rw (ioctl_port, e)
              (SamePort-trans (clear_errors-SamePort p dev) (serve-SamePort request a q dev'))
      ]

  -- An ioctl on the fd of an open port runs on that port, which the fd then still finds.
  pub ioctl-found :
      (fd : ℕ) (request : Request) (a : Arg) (p : Port) (sys : Sys Dev)
      → find_port (pos (suc fd)) sys.ports ≡ some p
      → let (r, a', q, dev') = ioctl_port api request a p sys.dev in
        (ioctl api (pos (suc fd)) request a sys
          ≡ (r, a', record { ports = update_from p.fd q sys.ports; dev = dev' }))
        × (find_port (pos (suc fd)) (update_from p.fd q sys.ports) ≡ some q)
  unfolding ioctl
  ioctl-found fd request a p sys found =
      let q = (ioctl_port api request a p sys.dev).2 in
      (
        rw (ioctl, found),
        find_port-update_from (suc fd) p q sys.ports found
            (ioctl_port-SamePort request a p sys.dev).same_fd,
      )
