-- ===== src/Serial/Scan/Prefix.antt =====
-- What isPortPrefixValid of src/SerialImp.c finds.
use rxtx.Base.{
  ℕ, zero, suc, ◌+◌, ◌<◌, ◌≡◌, refl, ◌∙◌, ap, if◌then◌else◌, not, Bool, true, some, List, arith,
  if_holds, ◌++◌,
}
use rxtx.Serial.Scan.{
  ScanApi, numbered, is_positive, stat_after, prefix_loop, is_port_prefix_valid, devicedir,
}

module _ {Dev : Type 0} (api : ScanApi Dev) where
  abbrev Found : Bool × Bool × Dev → Type 0
  Found (result, mode, dev) = result ≡ true

  prefix_loop-Found :
      (name : List ℕ) (left i n k : ℕ) (mode : Bool) (dev : Dev)
      → n ≡ i + k
      → k < left
      → ((d : Dev) → api.stat (numbered name n) d ≡ some true)
      → ((d : Dev) → is_positive (api.open_file (numbered name n) d).0 ≡ true)
      → Found (prefix_loop api name left i mode dev)
  unfolding prefix_loop
  prefix_loop-Found name zero i n k mode dev at_n few there opens = absurd (omega arith)
  prefix_loop-Found name (suc left) i n zero mode dev at_n few there opens =
      let here : i ≡ n = omega arith in
      let stat_here : api.stat (numbered name i) dev ≡ some true =
        ap (λ j. api.stat (numbered name j) dev) here ∙ there dev in
      let open_here : is_positive (api.open_file (numbered name i) dev).0 ≡ true =
        ap (λ j. is_positive (api.open_file (numbered name j) dev).0) here ∙ opens dev in
      let mode_here : stat_after api (numbered name i) mode dev ≡ true =
        rw (stat_after, stat_here) refl in
      if_holds Found (not (stat_after api (numbered name i) mode dev)) _ _ (λ no. absurd cc)
        (λ yes.
          if_holds Found (is_positive (api.open_file (numbered name i) dev).0) _ _ (λ opened. refl)
            (λ no. absurd cc))
  prefix_loop-Found name (suc left) i n (suc k) mode dev at_n few there opens =
      let mode' = stat_after api (numbered name i) mode dev in
      let dev1 = (api.open_file (numbered name i) dev).1 in
      let later =
        prefix_loop-Found name left (i + 1) n k mode' (if mode' then dev1 else dev) (omega arith)
          (omega arith) there opens in
      if_holds Found (not mode') _ _ (λ no. later)
        (λ yes.
          if_holds Found (is_positive (api.open_file (numbered name i) dev).0) _ _ (λ opened. refl)
            (λ no. later))

  -- A port is found: when one of the numbers 0 to 63 behind the prefix names a character device that
  -- can always be opened, isPortPrefixValid is true, whatever the other names are and whatever the
  -- static struct stat held before.
  pub is_port_prefix_valid-finds :
      (name : List ℕ) (n : ℕ) (mode : Bool) (dev : Dev)
      → n < 64
      → ((d : Dev) → api.stat (numbered name n) d ≡ some true)
      → ((d : Dev) → is_positive (api.open_file (numbered name n) d).0 ≡ true)
      → (is_port_prefix_valid api name mode dev).0 ≡ true
  unfolding is_port_prefix_valid
  is_port_prefix_valid-finds name n mode dev few there opens =
      let found = prefix_loop-Found name 64 0 n n mode dev (omega arith) few there opens in
      let (result, mode', dev') = prefix_loop api name 64 0 mode dev in
      let file = devicedir ++ name in
      if_holds Found (not (stat_after api file mode' dev')) _ _ (λ no. found)
        (λ yes.
          if_holds Found (is_positive (api.open_file file dev').0) _ _ (λ opened. refl)
            (λ no. found))
