-- ===== src/Serial/Transfer/Terminated/Stored.antt =====
-- What readTerminatedArray of src/SerialImp.c stores.
use rxtx.Base.Int.{ℤ, pos}
use rxtx.Serial.Events.{EventInfo}
use rxtx.Serial.Transfer.{FileApi, read_byte_array}
use rxtx.Serial.Transfer.Order.{Stream, read_byte_array-in_order}
use rxtx.Serial.Transfer.Terminated.{
  Filled, after_byte, ends_with, terminated_loop, read_terminated_array,
}
use rxtx.Base.{
  ℕ, zero, suc, ◌+◌, ◌≤◌, ◌<◌, ◌≡◌, refl, ◌∙◌, ap, subst, ltb, if_holds, ltb→lt, Option, some, none,
  List, [], ◌∷◌, ◌++◌, length as len, set, arith,
}

-- The array after bytes were written one behind the other.
unfoldable pub stored : ℕ → List ℕ → List ℕ → List ℕ
stored at [] body = body
stored at (b ∷ bytes) body = stored (at + 1) bytes (set body at b)

only_one :
    (b : ℕ) (more before after : List ℕ)
    → before ≡ (b ∷ more) ++ after
    → len (b ∷ more) ≤ 1
    → before ≡ b ∷ after
only_one b [] before after e fits = e
only_one b (c ∷ more) before after e fits = absurd (omega arith)

module _ {Dev : Type 0} (api : FileApi Dev) (pending : Dev → List ℕ) (stream : Stream api pending)
    (offset length first second : ℕ) (timeout : ℤ) where
  -- From `dev` on, bytes that leave the device are stored from offset + total on.
  abbrev Stores : ℕ → List ℕ → Dev → Filled Dev → Type 0
  Stores total body dev (ret, body', eis', dev') =
      (r : ℕ)
      → ret ≡ some r
      → (got : List ℕ) × (pending dev ≡ got ++ pending dev')
        × (body' ≡ stored (offset + total) got body)
        × (len got + total ≤ length)
        × (r ≤ 1)

  -- A byte, and then what the rest of the loop stores behind it.
  longer :
      (b total : ℕ) (body : List ℕ) (dev dev' : Dev) (rest : Filled Dev)
      → pending dev ≡ b ∷ pending dev'
      → Stores (total + 1) (set body (offset + total) b) dev' rest
      → Stores total body dev rest
  unfolding stored
  longer b total body dev dev' (ret, body'', eis'', dev'') one_byte h r e =
      let (got, order, kept, fits, small) = h r e in
      let next : offset + (total + 1) ≡ offset + total + 1 = omega arith in
      (
        b ∷ got,
        one_byte ∙ ap (λ l. b ∷ l) order,
        kept ∙ ap (λ n. stored n got (set body (offset + total) b)) next,
        omega arith,
        small,
      )

  after_byte-Stores :
      (again : List ℕ → EventInfo → Dev → Filled Dev) (total : ℕ) (body : List ℕ) (dev : Dev)
      (read : Option (List ℕ) × EventInfo × Dev)
      → total < length
      → ((bytes : List ℕ)
          → read.0 ≡ some bytes
          → (pending dev ≡ bytes ++ pending read.2) × (len bytes ≤ 1))
      → ((body' : List ℕ) (eis' : EventInfo) (dev' : Dev)
          → total + 1 < length
          → Stores (total + 1) body' dev' (again body' eis' dev'))
      → Stores total body dev
          (after_byte api offset length first second timeout again total body read)
  unfolding after_byte stored
  after_byte-Stores again total body dev (none, eis, dev') short one next = λ r e. absurd cc
  after_byte-Stores again total body dev (some [], eis, dev') short one next =
      λ r e. ([], (one [] refl).0, refl, omega arith, ground arith)
  after_byte-Stores again total body dev (some (b ∷ more), eis, dev') short one next =
      let (gave, fits) = one (b ∷ more) refl in
      let body' = set body (offset + total) b in
      let one_byte = only_one b more (pending dev) (pending dev') gave fits in
      let P = Stores total body dev in
      let ended : P (some 1, body', eis, dev') =
        λ r e. (b ∷ [], one_byte, refl, omega arith, ground arith) in
      if_holds P (ends_with first second (total + 1) body') _ _ (λ ends. ended)
        (λ goes.
          if_holds P (ltb (total + 1) length) _ _
            (λ more_left.
              longer b total body dev dev' (again body' eis dev') one_byte
                (next body' eis dev' (ltb→lt (total + 1) length more_left)))
            (λ full. ended))

  terminated_loop-Stores :
      (rounds total : ℕ) (body : List ℕ) (eis : EventInfo) (dev : Dev)
      → total < length
      → Stores total body dev
          (terminated_loop api offset length first second timeout rounds total body eis dev)
  unfolding terminated_loop stored
  terminated_loop-Stores zero total body eis dev short =
      λ r e. ([], refl, refl, omega arith, ground arith)
  terminated_loop-Stores (suc rounds) total body eis dev short =
      after_byte-Stores
        (λ body' eis' dev'.
          terminated_loop api offset length first second timeout rounds (total + 1) body' eis' dev')
        total body dev (read_byte_array api (pos 1) timeout eis dev) short
        (λ bytes got. read_byte_array-in_order api pending stream (pos 1) timeout eis dev bytes got)
        (λ body' eis' dev' more. terminated_loop-Stores rounds (total + 1) body' eis' dev' more)

  -- readTerminatedArray stores the first bytes that the device has pending, in their order, from the
  -- offset of the array on and no more than `length`, and leaves what follows them pending; but what
  -- it returns is never more than 1, however many it stored. This is for a positive length and a
  -- device whose reads take from the front of what is pending.
  pub read_terminated_array-stored :
      (body body' : List ℕ) (eis eis' : EventInfo) (dev dev' : Dev) (r : ℕ)
      → 0 < length
      → read_terminated_array api offset (pos length) first second timeout body eis dev
        ≡ (some r, body', eis', dev')
      → (got : List ℕ) × (pending dev ≡ got ++ pending dev')
        × (body' ≡ stored offset got body)
        × (len got ≤ length)
        × (r ≤ 1)
  unfolding read_terminated_array
  read_terminated_array-stored body body' eis eis' dev dev' r some_length e =
      let out = terminated_loop-Stores (suc length) 0 body eis dev some_length in
      let (got, order, kept, fits, small) = (subst (Stores 0 body dev) e out) r refl in
      (got, order, kept ∙ ap (λ n. stored n got body) (omega arith), omega (arith, fits), small)
