-- ===== src/Serial/Loop/Steps.antt =====
-- The moves of the threads on the event loops of src/SerialImp.c, in any order.
use rxtx.Base.{ℕ, ◌≡◌, some, Bool}
use rxtx.Termios.Comm.{CommApi}
use rxtx.Termios.Io.{IoApi}
use rxtx.Serial.Events.{EventInfo}
use rxtx.Serial.Loop.{
  World, initialise_event_info_struct, look, report, interrupt_event_loop, native_set_event_flag,
}

module _ {Dev : Type 0} (api : CommApi Dev) (io : IoApi Dev) (answer : ℕ → Bool → Bool) where
  -- A thread starts its loop, or makes one of its two steps, or another thread interrupts a loop
  -- or sets a flag.
  pub data Step : World Dev → World Dev → Type 0 where
    begins :
        (has_method : Bool) (fd : ℕ) (stack : EventInfo) (w : World Dev)
        → Step w (initialise_event_info_struct api has_method fd stack w).1
    looks : (tid : ℕ) (w w' : World Dev) → look tid w ≡ some w' → Step w w'
    reports :
        (stack tid : ℕ) (w w' : World Dev) → report api answer stack tid w ≡ some w' → Step w w'
    interrupts : (fd : ℕ) (w w' : World Dev) → interrupt_event_loop fd w ≡ some w' → Step w w'
    sets_flag :
        (fd event : ℕ) (flag : Bool) (w : World Dev)
        → Step w (native_set_event_flag api io fd event flag w)

  pub data Run (w : World Dev) : World Dev → Type 0 where
    here : Run w w
    next : {v u : World Dev} → Run w v → Step v u → Run w u
