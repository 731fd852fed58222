-- ===== src/Termios/Attr/Results.antt =====
-- The results of tcsetattr, of src/termios.c.
use rxtx.Termios.Ports.{find_port}
use rxtx.Termios.Flags.{has, icanon}
use rxtx.Base.{◌≡◌, ◌⊎◌, Bool-cases, inr, inl, Option-cases}
use rxtx.Base.Int.{ℤ, pos, minus_one, is_nonpos}
use rxtx.Termios.State.{Port, CommTimeouts, Termios, Dcb}
use rxtx.Termios.Attr.{send_attr, set_port_attr, tcsetattr, set_timeouts, make_dcb}
use rxtx.Termios.Comm.{CommApi, Sys}

module _ {Dev : Type 0} (api : CommApi Dev) where
  send_attr_results :
      (p : Port) (dev : Dev) (old : CommTimeouts) (made : Termios × Dcb)
      → ((send_attr api p dev old made).0 ≡ pos 0) ⊎ ((send_attr api p dev old made).0 ≡ minus_one)
  unfolding send_attr
  send_attr_results p dev old made =
      let set1 = api.set_comm_state dev p.hcomm made.1 in
      let set2 = api.set_comm_timeouts set1.1 p.hcomm (set_timeouts made.0 old) in
      elim (Bool-cases set1.0) [
        | inr a ↦ inr (rw (send_attr, a))
        | inl a ↦ elim (Bool-cases set2.0) [
          | inr b ↦ inr (rw (send_attr, a, b))
          | inl b ↦ inl (rw (send_attr, a, b))
        ]
      ]

  set_port_attr_results :
      (p : Port) (dev : Dev) (t : Termios)
      → ((set_port_attr api p dev t).0 ≡ pos 0) ⊎ ((set_port_attr api p dev t).0 ≡ minus_one)
  unfolding set_port_attr
  set_port_attr_results p dev t = elim (Bool-cases (has t.c_lflag icanon)) [
    | inl canon ↦ inr (rw (set_port_attr, canon))
    | inr raw ↦ elim (Option-cases (api.get_comm_state dev p.hcomm)) [
      | inl e ↦ inr (rw (set_port_attr, raw, e))
      | inr (dcb, e) ↦ elim (Option-cases (api.get_comm_timeouts dev p.hcomm)) [
        | inl f ↦ inr (rw (set_port_attr, raw, e, f))
        | inr (old, f) ↦
            let run : set_port_attr api p dev t ≡ send_attr api p dev old (make_dcb t dcb) =
              rw (set_port_attr, raw, e, f) in
            rw run (send_attr_results p dev old (make_dcb t dcb))
      ]
    ]
  ]

  -- tcsetattr returns 0 or -1.
  pub tcsetattr_results :
      (fd : ℤ) (t : Termios) (sys : Sys Dev)
      → ((tcsetattr api fd t sys).0 ≡ pos 0) ⊎ ((tcsetattr api fd t sys).0 ≡ minus_one)
  unfolding tcsetattr
  tcsetattr_results fd t sys = elim (Bool-cases (is_nonpos fd)) [
    | inl low ↦ inl (rw (tcsetattr, low))
    | inr high ↦ elim (Option-cases (find_port fd sys.ports)) [
      | inl e ↦ inr (rw (tcsetattr, high, e))
      | inr (p, e) ↦
          let run : (tcsetattr api fd t sys).0 ≡ (set_port_attr api p sys.dev t).0 =
            rw (tcsetattr, high, e) in
          rw run (set_port_attr_results p sys.dev t)
    ]
  ]
