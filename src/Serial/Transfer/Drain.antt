-- ===== src/Serial/Transfer/Drain.antt =====
-- nativeDrain of src/SerialImp.c in the Windows build. The exception that it throws is pending while
-- it goes on, and send_event clears it. The look-ups of build_threadsafe_eis are taken to answer
-- under a pending exception as without one. sendEvent itself is taken not to throw.
use rxtx.Base.{
  ◌≡◌, refl, ltb, if◌then◌else◌, not, Bool, true, false, Option, some, none, List, [], ◌∷◌,
}
use rxtx.Serial.Events.{EventInfo, Event, flag_of, spe_output_buffer_empty}
use rxtx.Serial.Transfer.{FileApi, Wrote, wrote, interrupted, failed, drain_tries}

-- Whether tcdrain did not return 0.
abbrev pub is_error : Wrote → Bool
is_error (wrote n) = false
is_error interrupted = true
is_error failed = true

abbrev pub output_buffer_empty : Event
output_buffer_empty = (spe_output_buffer_empty, true)

-- What follows the tests of the result and of `interrupted`: whether an exception is pending in the
-- end, and the events that were sent. `none` is a null eis.
unfoldable pub send_drained : Bool → Option EventInfo → Bool × List Event
send_drained thrown none = (thrown, [])
send_drained thrown (some eis) =
    if not (flag_of eis spe_output_buffer_empty)
    then (thrown, [])
    else if ltb 1 eis.eventloop_interrupted
    then (thrown, [])
    else (false, output_buffer_empty ∷ [])

module _ {Dev : Type 0} (api : FileApi Dev) where
  -- `quiet` is the argument `interrupted`.
  unfoldable pub native_drain : Bool → Option EventInfo → Dev → (Bool × List Event) × Dev
  unfolding drain_tries send_drained
  native_drain quiet eis dev =
      let (ret, dev') = drain_tries api 2 dev in
      if quiet then ((is_error ret, []), dev') else (send_drained (is_error ret) eis, dev')

  -- A drain that fails is not reported to a listener of OUTPUT_BUFFER_EMPTY: when every tcdrain
  -- fails without an interruption, nativeDrain with `interrupted` false ends with no exception and
  -- sends the event, and with `interrupted` true it ends with an exception and sends none, when the
  -- event is enabled and the loop has not been interrupted twice. Either way tcdrain runs once.
  pub native_drain-unreported :
      (eis : EventInfo) (dev : Dev)
      → ((d : Dev) → (api.tcdrain d).0 ≡ failed)
      → flag_of eis spe_output_buffer_empty ≡ true
      → ltb 1 eis.eventloop_interrupted ≡ false
      → let dev' = (api.tcdrain dev).1 in
        (native_drain false (some eis) dev ≡ ((false, output_buffer_empty ∷ []), dev'))
        × (native_drain true (some eis) dev ≡ ((true, []), dev'))
  unfolding native_drain drain_tries send_drained
  native_drain-unreported eis dev fails enabled running = (
    rw (native_drain, drain_tries, fails dev, send_drained, enabled, running) refl,
    rw (native_drain, drain_tries, fails dev) refl,
  )

  -- After a drain that is interrupted every time, tcdrain has run three times and no more: a drain
  -- with `interrupted` true then ends with an exception.
  native_drain-Interrupted :
      (eis : Option EventInfo) (dev : Dev)
      → ((d : Dev) → (api.tcdrain d).0 ≡ interrupted)
      → native_drain true eis dev
        ≡ ((true, []), (api.tcdrain (api.tcdrain (api.tcdrain dev).1).1).1)
  unfolding native_drain drain_tries
  native_drain-Interrupted eis dev again =
      let one = (api.tcdrain dev).1 in
      rw (native_drain, drain_tries, again dev, again one, again (api.tcdrain one).1) refl
