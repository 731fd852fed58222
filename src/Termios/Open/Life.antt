-- ===== src/Termios/Open/Life.antt =====
-- What serial_open of src/termios.c does to the list of ports: it adds one entry or leaves the list
-- as it was.
use rxtx.Termios.Flags.{has, o_nonblock}
use rxtx.Termios.Raw.{init_termios, init_serial_struct}
use rxtx.Base.Int.{pos, ℤ, minus_one}
use rxtx.Termios.Comm.{CommApi, Sys}
use rxtx.Base.{
  zero, ℕ, ◌≡◌, ◌<◌, refl, ap, false, [], ◌∷◌, ◌++◌, arith, some, All, suc, subst, sym, ◌⊎◌,
  Bool-cases, if◌then◌else◌, ◌==◌, inr, inl, ◌∙◌, Option-cases,
}
use rxtx.Termios.State.{Port, Termios}
use rxtx.Termios.Ports.{
  find_port, unlink, Ports, find_from, unlink_from, update_from, get_free_fd, add_port, port_opened,
}
use rxtx.Termios.Ports.Fresh.{uses, Ascends, get_free_fd-least}
use rxtx.Termios.Attr.{tcsetattr, set_port_attr}
use rxtx.Termios.Open.{
  new_port, open_port, set_up, serial_open, write_last, nothing_open, is_null, serial_close, String,
  is_invalid,
}

write_last-append : (q r : Port) (ps : Ports) → write_last q (ps ++ r ∷ []) ≡ ps ++ q ∷ []
unfolding write_last
write_last-append q r [] = refl
write_last-append q r (p ∷ []) = refl
write_last-append q r (p ∷ s ∷ ps) = ap (λ l. p ∷ l) (write_last-append q r (s ∷ ps))

-- The entry at the end of a list whose other entries have positive fds, and others than its own.
module _ (fd : ℕ) (q : Port) (own : q.fd ≡ fd) (positive : 0 < fd) where
  find_from-end :
      (ps : Ports) (low : ℕ)
      → Ascends low ps
      → uses fd ps ≡ false
      → find_from fd (ps ++ q ∷ []) ≡ some q
  unfolding find_from
  find_from-end [] low h new = ground arith
  find_from-end (p ∷ ps) low h new = ground (arith, find_from-end ps p.fd h.1)

  unlink_from-end :
      (ps : Ports) (low : ℕ)
      → Ascends low ps
      → uses fd ps ≡ false
      → unlink_from fd (ps ++ q ∷ []) ≡ ps
  unfolding unlink_from
  unlink_from-end [] low h new = ground arith
  unlink_from-end (p ∷ ps) low h new = ground (arith, unlink_from-end ps p.fd h.1)

  update_from-end :
      (r : Port) (ps : Ports) (low : ℕ)
      → Ascends low ps
      → uses fd ps ≡ false
      → update_from fd r (ps ++ q ∷ []) ≡ ps ++ r ∷ []
  unfolding update_from
  update_from-end r [] low h new = ground arith
  update_from-end r (p ∷ ps) low h new = ground (arith, update_from-end r ps p.fd h.1)

-- No entry has a null handle, as serial_close takes a null handle in the first entry for an empty list.
abbrev pub AllOpen : Ports → Type 0
AllOpen ps = All (λ (p : Port). is_null p.hcomm ≡ false) ps

nothing_open-append :
    (ps : Ports) (q : Port)
    → AllOpen ps
    → is_null q.hcomm ≡ false
    → nothing_open (ps ++ q ∷ []) ≡ false
unfolding nothing_open
nothing_open-append [] q all real = real
nothing_open-append (p ∷ ps) q all real = all.0

module _ {Dev : Type 0} (api : CommApi Dev) (n : ℕ) (ps : Ports) (q : Port) (dev : Dev)
    (own : q.fd ≡ suc n) (h : Ascends 0 ps) (new : uses (suc n) ps ≡ false) where
  abbrev ended : Sys Dev
  ended = record { ports = ps ++ q ∷ []; dev = dev }

  -- Closing the last entry.
  close-end :
      AllOpen ps → is_null q.hcomm ≡ false → (serial_close api (pos (suc n)) ended).1.ports ≡ ps
  unfolding serial_close find_port unlink
  close-end all real =
      rw (nothing_open-append ps q all real, find_from-end (suc n) q own (omega arith) ps 0 h new)
        (unlink_from-end (suc n) q own (omega arith) ps 0 h new)

  -- Setting the last entry changes no other one.
  tcsetattr-end :
      (t : Termios) → (x : Port) × ((tcsetattr api (pos (suc n)) t ended).2.ports ≡ ps ++ x ∷ [])
  unfolding tcsetattr find_port
  tcsetattr-end t =
      let x = (set_port_attr api q dev t).2 in
      (
        x,
        rw (find_from-end (suc n) q own (omega arith) ps 0 h new) (
            subst (λ fd. update_from fd x (ps ++ q ∷ []) ≡ ps ++ x ∷ []) (sym own)
              (update_from-end (suc n) q own (omega arith) x ps 0 h new)),
      )

-- The entry with a positive fd n + 1.
module _ {Dev : Type 0} (api : CommApi Dev) (ps : Ports) (q : Port) (h : Ascends 0 ps)
    (above : 0 < q.fd) (new : uses q.fd ps ≡ false) where
  close_last :
      (dev : Dev)
      → AllOpen ps
      → is_null q.hcomm ≡ false
      → (serial_close api (pos q.fd) (record { ports = ps ++ q ∷ []; dev = dev })).1.ports ≡ ps
  close_last dev all real = go q.fd refl above
    where
      go :
          (fd : ℕ)
          → q.fd ≡ fd
          → 0 < fd
          → (serial_close api (pos fd) (record { ports = ps ++ q ∷ []; dev = dev })).1.ports ≡ ps
      go zero e l = absurd (omega arith)
      go (suc n) e l = close-end api n ps q dev e h (subst (λ k. uses k ps ≡ false) e new) all real

  set_last :
      (dev : Dev) (t : Termios)
      → (x : Port) × ((tcsetattr api
            (pos q.fd)
            t
            (record { ports = ps ++ q ∷ []; dev = dev })).2.ports
          ≡ ps ++ x ∷ [])
  set_last dev t = go q.fd refl above
    where
      go :
          (fd : ℕ)
          → q.fd ≡ fd
          → 0 < fd
          → (x : Port) × ((tcsetattr api
                (pos fd)
                t
                (record { ports = ps ++ q ∷ []; dev = dev })).2.ports
              ≡ ps ++ x ∷ [])
      go zero e l = absurd (omega arith)
      go (suc n) e l = tcsetattr-end api n ps q dev e h (subst (λ k. uses k ps ≡ false) e new) t

module _ {Dev : Type 0} (api : CommApi Dev) where
  -- What is added when the open succeeds.
  abbrev pub Added : String → Sys Dev → ℤ × Sys Dev → Type 0
  Added name sys (r, sys') =
      (p : Port) × (r ≡ pos p.fd)
      × (p.filename ≡ name)
      × (p.fd ≡ get_free_fd sys.ports)
      × (sys'.ports ≡ sys.ports ++ p ∷ [])

  set_up-end :
      (flags : ℕ) (ps : Ports) (q : Port) (dev : Dev)
      → Ascends 0 ps
      → 0 < q.fd
      → uses q.fd ps ≡ false
      → (p : Port) × (p.fd ≡ q.fd)
        × (p.filename ≡ q.filename)
        × ((set_up api q flags (record { ports = ps ++ q ∷ []; dev = dev })).ports ≡ ps ++ p ∷ [])
  unfolding set_up
  set_up-end flags ps q dev h above new =
      let ready : Port = record q { ttyset = init_termios; sstruct = init_serial_struct } in
      let (x, e) = set_last api ps ready h above new dev init_termios in
      let start : Ports → Sys Dev = λ l. record { ports = l; dev = dev } in
      let run = tcsetattr api (pos q.fd) init_termios (start (write_last ready (ps ++ q ∷ []))) in
      let last : Port = record ready {
        ttyset = run.1;
        open_flags = if has flags o_nonblock then o_nonblock else 0;
      } in
      let ends : run.2.ports ≡ ps ++ x ∷ [] =
        ap (λ l. (tcsetattr api (pos q.fd) init_termios (start l)).2.ports)
          (write_last-append ready q ps)
        ∙ e in
      (last, refl, refl, ap (write_last last) ends ∙ write_last-append last x ps)

  open_port-handle :
      (p : Port) (dev : Dev) → (open_port api p dev).1 ≡ (api.create_file dev p.filename).0
  unfolding open_port
  open_port-handle p dev =
      let (h, dev') = api.create_file dev p.filename in
      elim (Bool-cases (is_invalid h)) [
        | inl bad ↦ rw (open_port, bad)
        | inr good ↦ elim (Bool-cases (api.setup_comm dev' h).0) [
          | inl ready ↦ rw (open_port, good, ready)
          | inr fails ↦ rw (open_port, good, fails)
        ]
      ]

  -- When the fds ascend, no handle is null and CreateFile does not give a null handle, serial_open
  -- either returns -1 and leaves the list as it was, also after a failure halfway, or returns the
  -- least free fd and adds one entry, with that fd and the name, at the end.
  pub serial_open_lem :
      (name : String) (flags : ℕ) (sys : Sys Dev)
      → Ascends 0 sys.ports
      → AllOpen sys.ports
      → ((dev : Dev) → is_null (api.create_file dev name).0 ≡ false)
      → let (r, sys') = serial_open api name flags sys in
        ((r ≡ minus_one) × (sys'.ports ≡ sys.ports)) ⊎ Added name sys (r, sys')
  unfolding serial_open add_port
  serial_open_lem name flags sys h all real = elim (Bool-cases (port_opened name sys.ports == 0)) [
    | inr taken ↦ inl (rw taken (refl, refl))
    | inl free ↦
        let (added, ports) = add_port (new_port name) sys.ports in
        let (opened, h', dev') = open_port api added sys.dev in
        let port : Port = record added { hcomm = h' } in
        let (above, new, _) = get_free_fd-least sys.ports h in
        let null : is_null h' ≡ false =
          ap is_null (open_port-handle added sys.dev) ∙ real sys.dev in
        let start : Ports → Sys Dev = λ l. record { ports = l; dev = dev' } in
        let stored : write_last port ports ≡ sys.ports ++ port ∷ [] =
          write_last-append port added sys.ports in
        let closed : (serial_close api (pos port.fd) (start (write_last port ports))).1.ports
            ≡ sys.ports =
          ap (λ l. (serial_close api (pos port.fd) (start l)).1.ports) stored
          ∙ close_last api sys.ports port h above new dev' all null in
        elim (Bool-cases opened) [
          | inr fails ↦ inl (rw (free, fails) (refl, closed))
          | inl opens ↦ elim (Option-cases (api.get_comm_state dev' h')) [
            | inl e ↦ inl (rw (free, opens, e) (refl, closed))
            | inr (dcb, e) ↦
                let (p, fd, named, adds) = set_up-end flags sys.ports port dev' h above new in
                let whole = ap (λ l. (set_up api port flags (start l)).ports) stored ∙ adds in
                inr (p, rw (free, opens, e) (ap pos (sym fd)), named, fd, rw (free, opens, e) whole)
          ]
        ]
  ]
