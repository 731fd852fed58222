-- ===== src/Tests/Transfer.antt =====
-- The checks of reading and writing, on a device that is a list of bytes.
use rxtx.Serial.Transfer.Terminated.Stored.{stored, read_terminated_array-stored}
use rxtx.Serial.Transfer.Terminated.{read_terminated_array, terminated_loop, after_byte}
use rxtx.Base.{
  ℕ, zero, suc, ◌≡◌, refl, some, Option, [], ◌∷◌, ◌++◌, List, arith, subst, length, ◌≤◌, ◌≢◌,
  replicate, false, true,
}
use rxtx.Base.Int.{pos, negsuc}
use rxtx.Serial.Transfer.{
  FileApi, Wrote, wrote, interrupted, read_byte_array, read_bytes, read_loop, read_round,
  after_select, clock, failed,
}
use rxtx.Serial.Transfer.Order.{Stream, read_byte_array-in_order}
use rxtx.Serial.Transfer.Drain.{native_drain, native_drain-unreported, output_buffer_empty}
use rxtx.Serial.Events.{EventInfo}
use rxtx.Tests.Events.{eis}

-- The bytes to read, and how often a call will be interrupted.
record Queue : Type 0 where
  pub bytes : List ℕ
  pub busy : ℕ

-- A read gives one byte at a time.
abbrev read_one : List ℕ → ℕ → Option (List ℕ) × List ℕ
read_one [] n = (some [], [])
read_one (b ∷ bs) zero = (some [], b ∷ bs)
read_one (b ∷ bs) (suc n) = (some (b ∷ []), bs)

-- A write takes two bytes.
abbrev write_two : ℕ → List ℕ → Wrote × Queue
write_two zero bs = (wrote 2, record { bytes = bs; busy = 0 })
write_two (suc k) bs = (interrupted, record { bytes = bs; busy = k })

abbrev queue_api : FileApi Queue
queue_api = record {
  get_tick_count = λ d. (7, d);
  select = λ d t. (pos 1, d);
  read = λ d n. let (got, rest) = read_one d.bytes n in (got, record d { bytes = rest });
  write = λ d bs. write_two d.busy d.bytes;
  tcdrain = λ d. write_two d.busy d.bytes;
}

read_one-order :
    (bs : List ℕ) (n : ℕ) (got : List ℕ)
    → (read_one bs n).0 ≡ some got
    → bs ≡ got ++ (read_one bs n).1
read_one-order [] n got h = let same : [] ≡ got = cc in subst (λ g. [] ≡ g ++ []) same refl
read_one-order (b ∷ bs) zero got h =
    let same : [] ≡ got = cc in subst (λ g. b ∷ bs ≡ g ++ (b ∷ bs)) same refl
read_one-order (b ∷ bs) (suc n) got h =
    let same : b ∷ [] ≡ got = cc in subst (λ g. b ∷ bs ≡ g ++ bs) same refl

read_one-fits : (bs : List ℕ) (n : ℕ) (got : List ℕ) → (read_one bs n).0 ≡ some got → length got ≤ n
read_one-fits [] n got h = let same : [] ≡ got = cc in subst (λ g. length g ≤ n) same (omega arith)
read_one-fits (b ∷ bs) zero got h =
    let same : [] ≡ got = cc in subst (λ g. length g ≤ 0) same (omega arith)
read_one-fits (b ∷ bs) (suc n) got h =
    let same : b ∷ [] ≡ got = cc in subst (λ g. length g ≤ suc n) same (omega arith)

queue-Stream : Stream queue_api (λ d. d.bytes)
queue-Stream = record {
  clock_keeps = λ d. refl;
  select_keeps = λ d t. refl;
  read_gives = λ d n got h. read_one-order d.bytes n got h;
  read_fits = λ d n got h. read_one-fits d.bytes n got h;
}

abbrev five : Queue
five = record { bytes = 1 ∷ 2 ∷ 3 ∷ 4 ∷ 5 ∷ []; busy = 2 }

three_read : (read_byte_array queue_api (pos 3) (negsuc 0) eis five).0 ≡ some (1 ∷ 2 ∷ 3 ∷ [])
unfolding read_byte_array read_bytes read_loop read_round after_select clock
three_read = refl

read_byte_array-in_order_example :
    (five.bytes
      ≡ (1 ∷ 2 ∷ 3 ∷ []) ++ (read_byte_array queue_api (pos 3) (negsuc 0) eis five).2.bytes)
    × (3 ≤ 3)
read_byte_array-in_order_example =
    read_byte_array-in_order queue_api (λ d. d.bytes) queue-Stream (pos 3) (negsuc 0) eis five
      (1 ∷ 2 ∷ 3 ∷ []) three_read

abbrev calm_five : Queue
calm_five = record five { busy = 0 }

wrote_not_interrupted : (n : ℕ) → wrote n ≢ interrupted
wrote_not_interrupted n e = cc

abbrev zeros : List ℕ
zeros = 0 ∷ 0 ∷ 0 ∷ 0 ∷ 0 ∷ 0 ∷ []

-- The terminator is 3, 4; the fifth byte is left.
ends_at_4 :
    read_terminated_array queue_api 0 (pos 5) 3 4 (negsuc 0) zeros eis five
    ≡ (some 1, 1 ∷ 2 ∷ 3 ∷ 4 ∷ 0 ∷ 0 ∷ [], eis, record five { bytes = 5 ∷ [] })
unfolding read_terminated_array terminated_loop after_byte read_byte_array read_bytes read_loop
    read_round after_select clock
ends_at_4 = refl

read_terminated_array-stored_example :
    (got : List ℕ) × (five.bytes ≡ got ++ 5 ∷ [])
    × (1 ∷ 2 ∷ 3 ∷ 4 ∷ 0 ∷ 0 ∷ [] ≡ stored 0 got zeros)
    × (length got ≤ 5)
    × (1 ≤ 1)
read_terminated_array-stored_example =
    read_terminated_array-stored queue_api (λ d. d.bytes) queue-Stream 0 5 3 4 (negsuc 0) zeros
      (1 ∷ 2 ∷ 3 ∷ 4 ∷ 0 ∷ 0 ∷ []) eis eis five (record five { bytes = 5 ∷ [] }) 1 (omega arith)
      ends_at_4

-- All events are enabled.
abbrev listening : EventInfo
listening = record eis { eventflags = replicate 11 1 }

-- A device whose tcdrain fails.
abbrev broken : FileApi Queue
broken = record queue_api { tcdrain = λ d. (failed, d) }

native_drain-unreported_example :
    (native_drain broken false (some listening) five ≡ ((false, output_buffer_empty ∷ []), five))
    × (native_drain broken true (some listening) five ≡ ((true, []), five))
native_drain-unreported_example =
    native_drain-unreported broken listening five (λ d. refl) refl refl
