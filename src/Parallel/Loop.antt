-- ===== src/Parallel/Loop.antt =====
-- The event loop of src/ParallelImp.c in the Windows build, with nativeavailable and setLPRMode.
use rxtx.Termios.Transfer.{serial_select}
use rxtx.Termios.Io.{IoApi}
use rxtx.Termios.Comm.{CommApi, Sys}
use rxtx.Base.{ℕ, ◌≡◌, refl, if◌then◌else◌, not, Bool, true, false, some, none, List, [], ◌∷◌, ◌++◌}
use rxtx.Base.Int.{ℤ, pos, minus_one, ◌==ℤ◌}
use rxtx.Parallel.{ParApi, par_events}

abbrev lpt_mode_any : ℤ
lpt_mode_any = pos 0

-- The result, and whether an exception was thrown.
unfoldable set_lpr_mode : ℤ → Bool × Bool
set_lpr_mode mode = (true, not (mode ==ℤ lpt_mode_any))

module _ {Dev : Type 0} (api : ParApi Dev) where
  -- The same; `unset` is what the local variable holds when ioctl fails.
  unfoldable par_native_available : ℤ → Dev → ℤ × Bool
  par_native_available unset dev = elim (api.fionread dev) [
    | none ↦ (unset, true)
    | some n ↦ (n, n ==ℤ minus_one)
  ]

module _ {Dev Lpt : Type 0} (comm : CommApi Dev) (io : IoApi Dev) (api : ParApi Lpt) where
  -- The rounds of the loop, each with the answer of is_interrupted and the port as it is then: the
  -- events that were sent. The end of the sequence is a loop that still runs.
  unfoldable pub par_rounds : ℤ → List (Bool × Lpt) → Sys Dev → List (ℕ × Bool) × Sys Dev
  unfolding par_events serial_select
  par_rounds fd [] sys = ([], sys)
  par_rounds fd ((stop, dev) ∷ rounds) sys =
      let sys' = (serial_select comm io fd sys).1 in
      let (events, end) = par_rounds fd rounds sys' in
      if stop then ([], sys') else (par_events api dev ++ events, end)

  -- With the first answer of is_interrupted and those that follow.
  unfoldable pub par_event_loop : ℤ → Bool → List (Bool × Lpt) → Sys Dev → List (ℕ × Bool) × Sys Dev
  unfolding par_rounds
  par_event_loop fd stop rounds sys = if stop then ([], sys) else par_rounds fd rounds sys

  stopped_rounds :
      (fd : ℤ) (front more : List (Bool × Lpt)) (dev : Lpt) (sys : Sys Dev)
      → par_rounds fd (front ++ (true, dev) ∷ more) sys
        ≡ par_rounds fd (front ++ (true, dev) ∷ []) sys
  unfolding par_rounds
  stopped_rounds fd [] more dev sys = refl
  stopped_rounds fd ((stop, d) ∷ front) more dev sys =
      rw (par_rounds, stopped_rounds fd front more dev (serial_select comm io fd sys).1) refl

  -- An interrupted loop ends: what the loop sends and does up to the first answer that it is
  -- interrupted is all that it ever does, whatever the later answers would be.
  par_event_loop-stopped :
      (fd : ℤ) (stop : Bool) (front more : List (Bool × Lpt)) (dev : Lpt) (sys : Sys Dev)
      → par_event_loop fd stop (front ++ (true, dev) ∷ more) sys
        ≡ par_event_loop fd stop (front ++ (true, dev) ∷ []) sys
  unfolding par_event_loop
  par_event_loop-stopped fd true front more dev sys = refl
  par_event_loop-stopped fd false front more dev sys = stopped_rounds fd front more dev sys
