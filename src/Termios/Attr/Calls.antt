-- ===== src/Termios/Attr/Calls.antt =====
-- What tcgetattr reads after tcsetattr, of src/termios.c.
use rxtx.Base.{
  ℕ, zero, suc, ◌≡◌, inl, inr, false, bit_and, arith, ◌∙◌, sym, ap, some, ◌<◌, length, get_or,
  Option-cases, Bool-cases,
}
use rxtx.Base.Int.{pos, minus_one}
use rxtx.Termios.Flags.{has, cbaud, vtime, cignore, icanon}
use rxtx.Termios.Speed.{b_to_cbr}
use rxtx.Termios.State.{Termios, Dcb, CommTimeouts, Port}
use rxtx.Termios.Comm.{CommApi, CommLaws, Sys}
use rxtx.Termios.Ports.{find_port, update_from}
use rxtx.Termios.Ports.Update.{find_port-update_from}
use rxtx.Termios.Attr.{
  set_timeouts, make_dcb, fill_attr, get_port_attr, set_port_attr, send_attr, tcgetattr, tcsetattr,
}
use rxtx.Termios.Attr.RoundTrip.{ReadsBack, speeds, sent, made-sent, fill_attr-ReadsBack}

module _ {Dev : Type 0} (api : CommApi Dev) (laws : CommLaws api) where
  -- What tcsetattr does once the two Get calls have succeeded.
  set_calls :
      (p : Port) (dev : Dev) (t : Termios) (dcb : Dcb) (timeouts : CommTimeouts)
      → has t.c_lflag icanon ≡ false
      → has t.c_cflag cignore ≡ false
      → api.get_comm_state dev p.hcomm ≡ some dcb
      → api.get_comm_timeouts dev p.hcomm ≡ some timeouts
      → set_port_attr api p dev t ≡ send_attr api p dev timeouts (speeds t dcb, sent t dcb)
  unfolding set_port_attr
  set_calls p dev t dcb timeouts raw heeds got have =
      let calls : set_port_attr api p dev t ≡ send_attr api p dev timeouts (make_dcb t dcb) =
        rw (raw, got, have) in
      calls ∙ ap (send_attr api p dev timeouts) (made-sent t dcb heeds)

  -- A success of tcsetattr went through all four calls.
  set_done :
      (p : Port) (dev : Dev) (t : Termios)
      → (set_port_attr api p dev t).0 ≡ pos 0
      → (has t.c_lflag icanon ≡ false)
        × (dcb : Dcb) × (timeouts : CommTimeouts) × (api.get_comm_state dev p.hcomm ≡ some dcb)
        × (api.get_comm_timeouts dev p.hcomm ≡ some timeouts)
  unfolding set_port_attr
  set_done p dev t done = elim (Bool-cases (has t.c_lflag icanon)) [
    | inl canon ↦ absurd (ground arith)
    | inr raw ↦ elim (Option-cases (api.get_comm_state dev p.hcomm)) [
      | inl fails ↦ absurd (ground arith)
      | inr (dcb, got) ↦ elim (Option-cases (api.get_comm_timeouts dev p.hcomm)) [
        | inl fails ↦ absurd (ground arith)
        | inr (timeouts, have) ↦ (raw, dcb, timeouts, got, have)
      ]
    ]
  ]

  get_calls :
      (p : Port) (dev : Dev) (old : Termios) (dcb : Dcb) (timeouts : CommTimeouts)
      → api.get_comm_state dev p.hcomm ≡ some dcb
      → api.get_comm_timeouts dev p.hcomm ≡ some timeouts
      → get_port_attr api p dev old ≡ (pos 0, fill_attr dcb timeouts p.ttyset)
  unfolding get_port_attr
  get_calls p dev old dcb timeouts got have = rw (get_port_attr, got, have)

  set_then_get :
      (p : Port) (dev : Dev) (t old : Termios) (rate : ℕ)
      → (set_port_attr api p dev t).0 ≡ pos 0
      → has t.c_cflag cignore ≡ false
      → length t.c_cc ≡ 32
      → get_or t.c_cc vtime 0 < 256
      → b_to_cbr (bit_and t.c_cflag cbaud) ≡ some rate
      → ((set_port_attr api p dev t).2.fd ≡ p.fd)
        × ((v : Termios) × (get_port_attr api
                (set_port_attr api p dev t).2
                (set_port_attr api p dev t).3
                old
              ≡ (pos 0, v))
            × ReadsBack t v)
  unfolding send_attr
  set_then_get p dev t old rate done heeds n byte known =
      let (raw, dcb, timeouts, got, have) = set_done p dev t done in
      let calls = set_calls p dev t dcb timeouts raw heeds got have in
      let set1 = api.set_comm_state dev p.hcomm (sent t dcb) in
      let millis = set_timeouts (speeds t dcb) timeouts in
      let set2 = api.set_comm_timeouts set1.1 p.hcomm millis in
      elim (Bool-cases set1.0) [
        | inl ok1 ↦ elim (Bool-cases set2.0) [
          | inl ok2 ↦ (
            rw (calls, ok1, ok2),
            (
              fill_attr (sent t dcb) millis (speeds t dcb),
              rw (calls, ok1, ok2)
                  (get_calls (record p { ttyset = speeds t dcb }) set2.1 old (sent t dcb) millis
                    (laws.timeouts_apart set1.1 p.hcomm millis
                      ∙ laws.state_kept dev p.hcomm (sent t dcb) ok1)
                    (laws.timeouts_kept set1.1 p.hcomm millis ok2)),
              fill_attr-ReadsBack t dcb timeouts rate n byte known,
            ),
          )
          | inr no2 ↦
              let fails : (set_port_attr api p dev t).0 ≡ minus_one = rw (calls, ok1, no2) in
              absurd cc
        ]
        | inr no1 ↦
            let fails : (set_port_attr api p dev t).0 ≡ minus_one = rw (calls, no1) in absurd cc
      ]

  -- A success of tcsetattr is read back: when it returned 0 for an open port, with CIGNORE clear,
  -- 32 control characters, c_cc[VTIME] a byte and a baud rate that B_to_CBR knows, then tcgetattr
  -- returns 0 and a structure with the same size, stop bits, parity (none without PARENB), flow
  -- control, rate, XON/XOFF flags and control characters, whatever the structure held before.
  pub tcgetattr-tcsetattr :
      (fd : ℕ) (p : Port) (sys : Sys Dev) (t old : Termios) (rate : ℕ)
      → find_port (pos fd) sys.ports ≡ some p
      → (tcsetattr api (pos fd) t sys).0 ≡ pos 0
      → has t.c_cflag cignore ≡ false
      → length t.c_cc ≡ 32
      → get_or t.c_cc vtime 0 < 256
      → b_to_cbr (bit_and t.c_cflag cbaud) ≡ some rate
      → (v : Termios) × (tcgetattr api (pos fd) (tcsetattr api (pos fd) t sys).2 old ≡ (pos 0, v))
        × ReadsBack t v
  unfolding tcsetattr tcgetattr find_port
  tcgetattr-tcsetattr zero p sys t old rate found done heeds n byte known = absurd cc
  tcgetattr-tcsetattr (suc fd) p sys t old rate found done heeds n byte known =
      let result : Sys Dev = record {
        ports = update_from p.fd (set_port_attr api p sys.dev t).2 sys.ports;
        dev = (set_port_attr api p sys.dev t).3;
      } in
      let run : tcsetattr api (pos (suc fd)) t sys
          ≡ ((set_port_attr api p sys.dev t).0, (set_port_attr api p sys.dev t).1, result) =
        rw found in
      let done' : (set_port_attr api p sys.dev t).0 ≡ pos 0 = ap (λ r. r.0) (sym run) ∙ done in
      let (same, (v, read, back)) = set_then_get p sys.dev t old rate done' heeds n byte known in
      let after =
        find_port-update_from (suc fd) p (set_port_attr api p sys.dev t).2 sys.ports found same in
      let again : tcgetattr api (pos (suc fd)) result old ≡ (pos 0, v) = rw after read in
      (v, ap (λ r. tcgetattr api (pos (suc fd)) r.2 old) run ∙ again, back)
