-- ===== src/Serial/Session/Closes.antt =====
-- nativeClose of src/SerialImp.c takes the port out of the list, and no other.
use rxtx.Termios.Ports.Update.{find_port-update_from}
use rxtx.Base.{
  ℕ, zero, suc, ◌==◌, ◌≡◌, ◌≢◌, refl, ◌∙◌, ap, Bool-cases, subst, sym, false, some, none, [], ◌∷◌,
  inl, inr, arith, ==_refl,
}
use rxtx.Base.Int.{ℤ, pos, ◌==ℤ◌}
use rxtx.Termios.State.{Port}
use rxtx.Termios.Comm.{CommApi, Sys}
use rxtx.Termios.Ports.{Ports, find_from, find_port, update_from, unlink}
use rxtx.Termios.Ports.Fresh.{Ascends}
use rxtx.Termios.Ports.Close.{find_port-unlink, unlink-Ascends}
use rxtx.Termios.Open.{serial_close, nothing_open, is_null}
use rxtx.Termios.Open.Life.{AllOpen}
use rxtx.Termios.Io.{IoApi, tcioflush, purge, flush_port, tcflush, on_port}
use rxtx.Serial.Session.{native_close}

update_from-Ascends :
    (fd low : ℕ) (q : Port) (ps : Ports)
    → q.fd ≡ fd
    → Ascends low ps
    → Ascends low (update_from fd q ps)
unfolding update_from
update_from-Ascends fd low q [] own h = tt
update_from-Ascends fd low q (p ∷ ps) own (above, h) =
    let used : (p.fd == 0) ≡ false = ground arith in
    elim (Bool-cases (p.fd == fd)) [
      | inl same ↦
          let e : p.fd ≡ q.fd = ground arith in
          rw (update_from, used, same) (omega arith, subst (λ x. Ascends x ps) e h)
      | inr other ↦ rw (update_from, used, other) (above, update_from-Ascends fd p.fd q ps own h)
    ]

find_from-other :
    (fd g : ℕ) (q : Port) (ps : Ports)
    → q.fd ≡ g
    → g ≢ fd
    → find_from fd (update_from g q ps) ≡ find_from fd ps
unfolding find_from update_from
find_from-other fd g q [] own apart = refl
find_from-other fd g q (p ∷ ps) own apart = ground (arith, find_from-other fd g q ps own apart)

found_own : (fd : ℕ) (p : Port) (ps : Ports) → find_from fd ps ≡ some p → p.fd ≡ fd
unfolding find_from
found_own fd p [] found = absurd cc
found_own fd p (q ∷ ps) found = ground (arith, found_own fd p ps)

still_open :
    (fd : ℕ) (p q : Port) (ps : Ports)
    → find_from fd ps ≡ some p
    → AllOpen ps
    → q.hcomm ≡ p.hcomm
    → nothing_open (update_from fd q ps) ≡ false
unfolding find_from update_from nothing_open
still_open fd p q [] found all same = absurd cc
still_open fd p q (r ∷ ps) found (real, all) same = elim (Bool-cases (r.fd == 0)) [
  | inl unused ↦ let lost : none ≡ some p = (rw (find_from, unused) at found) in absurd cc
  | inr used ↦ elim (Bool-cases (r.fd == fd)) [
    | inl here ↦
        let out : some r ≡ some p = (rw (find_from, used, here) at found) in
        let now : r ≡ p = cc in
        rw (update_from, used, here, nothing_open)
          (ap is_null (same ∙ ap (λ x. x.hcomm) (sym now)) ∙ real)
    | inr there ↦ rw (update_from, used, there, nothing_open) real
  ]
]

others :
    (fd : ℕ) (q : Port) (flushed ports : Ports)
    → q.fd ≡ fd
    → Ascends 0 flushed
    → flushed ≡ update_from fd q ports
    → (g : ℕ) → g ≢ fd
    → find_port (pos g) (unlink (pos fd) flushed) ≡ find_port (pos g) ports
unfolding find_port
others fd q flushed ports own ascends e zero apart =
    find_port-unlink 0 fd flushed ascends ∙ ground arith
others fd q flushed ports own ascends e (suc g) apart =
    let differ : (fd == suc g) ≡ false = ground arith in
    find_port-unlink (suc g) fd flushed ascends
    ∙ (rw differ (
        ap (find_from (suc g)) e
        ∙ find_from-other (suc g) fd q ports own (λ same. apart (sym same))))

module _ {Dev : Type 0} (api : CommApi Dev) (io : IoApi Dev) where
  flush_marks :
      (p : Port) (dev : Dev) → (flush_port api io tcioflush p dev).1 ≡ record p { tx_happened = 1 }
  unfolding flush_port purge
  flush_marks p dev = elim (Bool-cases (io.purge_tx dev p.hcomm).0) [
    | inl sent ↦ elim (Bool-cases (io.purge_rx (io.purge_tx dev p.hcomm).1 p.hcomm).0) [
      | inl got ↦ rw (flush_port, purge, sent, got) refl
      | inr fails ↦ rw (flush_port, purge, sent, fails) refl
    ]
    | inr fails ↦ rw (flush_port, purge, fails) refl
  ]

  flushed :
      (n : ℕ) (p : Port) (sys : Sys Dev)
      → find_port (pos (suc n)) sys.ports ≡ some p
      → (tcflush api io (pos (suc n)) tcioflush sys).1.ports
        ≡ update_from p.fd (record p { tx_happened = 1 }) sys.ports
  unfolding tcflush
  flushed n p sys found =
      rw (tcflush, on_port, found) (ap (λ q. update_from p.fd q sys.ports) (flush_marks p sys.dev))

  -- nativeClose takes the port of the fd away, keeps the fds ascending, and leaves what every other
  -- fd finds: when the fds
  -- ascend, no handle is null, the fd is that of an open port and the field pid is set.
  pub native_close_lem :
      (n : ℕ) (pid : ℤ) (p : Port) (sys : Sys Dev)
      → Ascends 0 sys.ports
      → AllOpen sys.ports
      → find_port (pos (suc n)) sys.ports ≡ some p
      → (pid ==ℤ pos 0) ≡ false
      → let sys' = native_close api io pid (pos (suc n)) sys in
        Ascends 0 sys'.ports
        × (find_port (pos (suc n)) sys'.ports ≡ none)
        × ((g : ℕ) → g ≢ suc n → find_port (pos g) sys'.ports ≡ find_port (pos g) sys.ports)
  unfolding native_close serial_close find_port
  native_close_lem n pid p sys h all found set =
      let fd = suc n in
      let q : Port = record p { tx_happened = 1 } in
      let ports' = update_from p.fd q sys.ports in
      let own : p.fd ≡ fd = found_own fd p sys.ports found in
      let same = flushed n p sys found in
      let flushed_sys = (tcflush api io (pos fd) tcioflush sys).1 in
      let open_yet : nothing_open flushed_sys.ports ≡ false =
        (rw same (
          ap (λ x. nothing_open (update_from x q sys.ports)) own
          ∙ still_open fd p q sys.ports found all refl)) in
      let there : find_port (pos fd) flushed_sys.ports ≡ some q =
        (rw same (find_port-update_from fd p q sys.ports found refl)) in
      let ascends : Ascends 0 flushed_sys.ports =
        (rw same (
          subst (λ x. Ascends 0 (update_from x q sys.ports)) (sym own)
            (update_from-Ascends fd 0 q sys.ports own h))) in
      let closed : (native_close api io pid (pos fd) sys).ports
          ≡ unlink (pos fd) flushed_sys.ports =
        (rw (native_close, set, serial_close, open_yet, there) refl) in
      rw closed (
        unlink-Ascends fd flushed_sys.ports ascends,
        find_port-unlink fd fd flushed_sys.ports ascends ∙ (rw (==_refl fd) refl),
        others fd q flushed_sys.ports sys.ports own ascends
            (same ∙ ap (λ x. update_from x q sys.ports) own),
      )
