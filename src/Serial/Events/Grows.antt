-- ===== src/Serial/Events/Grows.antt =====
-- Runs of the event checks of src/SerialImp.c that send only events that are enabled.
use rxtx.Base.{
  ℕ, ◌≡◌, refl, ◌∙◌, sym, ap, Bool, true, false, List, [], ◌∷◌, ◌++◌, if◌then◌else◌, not, ◌==◌, All,
  some, none, Option, inl, inr, append_assoc, append_nil, arith, ◌>>=◌, ◌⊎◌, subst, get_or, ◌<◌,
}
use rxtx.Serial.Events.{Event, Loop}

-- The event may be sent: the listener enabled it, or it is another event than the two that need it.
abbrev pub Allowed : List ℕ → Event → Type 0
Allowed flags (type, on) = (type ≡ 1) ⊎ (type ≡ 2) → (get_or flags type 0 == 0) ≡ false

-- From `s` to `t` only allowed events were sent, and the flags are the same.
pub record Grows {Dev : Type 0} (s t : Loop Dev) : Type 0 where
  pub new : List Event
  pub adds : t.sent ≡ s.sent ++ new
  pub fine : All (Allowed s.eis.eventflags) new
  pub same_flags : t.eis.eventflags ≡ s.eis.eventflags

All-append : {A : Type 0} (P : A → Type 0) (xs ys : List A) → All P xs → All P ys → All P (xs ++ ys)
All-append P [] ys a b = b
All-append P (x ∷ xs) ys a b = (a.0, All-append P xs ys a.1 b)

module _ {Dev : Type 0} where
  pub stays :
      (s : Loop Dev) (t : Loop Dev)
      → t.sent ≡ s.sent
      → t.eis.eventflags ≡ s.eis.eventflags
      → Grows s t
  stays s t e f = record { new = []; adds = e ∙ sym (append_nil s.sent); fine = tt; same_flags = f }

  pub Grows-trans : (s t u : Loop Dev) → Grows s t → Grows t u → Grows s u
  Grows-trans s t u st tu = record {
    new = st.new ++ tu.new;
    adds = tu.adds ∙ ap (λ l. l ++ tu.new) st.adds ∙ append_assoc s.sent st.new tu.new;
    fine =
        All-append (Allowed s.eis.eventflags) st.new tu.new st.fine
          (subst (λ flags. All (Allowed flags) tu.new) st.same_flags tu.fine);
    same_flags = tu.same_flags ∙ st.same_flags;
  }

pub if_Grows :
    {Dev : Type 0} (s : Loop Dev) (b : Bool) (t u : Loop Dev)
    → Grows s t
    → Grows s u
    → Grows s (if b then t else u)
if_Grows s true t u a b = a
if_Grows s false t u a b = b

pub pair_Grows :
    {Dev : Type 0} (s : Loop Dev) (b : Bool) (x y : Bool × Loop Dev)
    → (b ≡ true → Grows s x.1)
    → (b ≡ false → Grows s y.1)
    → Grows s (if b then x else y).1
pair_Grows s true x y f g = f refl
pair_Grows s false x y f g = g refl

pub if_some :
    {A : Type 0} (b : Bool) (x y : Option A) (t : A)
    → (if b then x else y) ≡ some t
    → (x ≡ some t) ⊎ (y ≡ some t)
if_some true x y t h = inl h
if_some false x y t h = inr h

pub enabled :
    (flags : List ℕ) (type : ℕ) (on : Bool)
    → not (not (get_or flags type 0 == 0)) ≡ false
    → Allowed flags (type, on)
enabled flags type on h given = ground arith

-- The events that need no flag.
pub free : (type : ℕ) (on : Bool) → 2 < type → (flags : List ℕ) → Allowed flags (type, on)
free type on h flags (inl e) = absurd (omega arith)
free type on h flags (inr e) = absurd (omega arith)

pub bind_some :
    {A B : Type 0} (o : Option A) (f : A → Option B) (b : B)
    → (o >>= f) ≡ some b
    → (a : A) × (o ≡ some a) × (f a ≡ some b)
bind_some none f b h = absurd cc
bind_some (some a) f b h = (a, refl, h)

pub same-Grows : {Dev : Type 0} (s t : Loop Dev) → some s ≡ some t → Grows s t
same-Grows s t h =
    let e : s ≡ t = cc in stays s t (ap (λ x. x.sent) (sym e)) (ap (λ x. x.eis.eventflags) (sym e))
