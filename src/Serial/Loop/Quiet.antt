-- ===== src/Serial/Loop/Quiet.antt =====
-- Lists of the threads of src/SerialImp.c in which the loop of one thread is closing.
use rxtx.Base.{
  ℕ, ◌<◌, ◌==◌, ◌≡◌, ◌≢◌, if◌then◌else◌, refl, ap, true, false, Bool-cases, Option-cases, some,
  none, List, [], ◌∷◌, ◌++◌, All, inl, inr, arith, subst,
}
use rxtx.Serial.Events.{EventInfo, Event}
use rxtx.Serial.Loop.{
  Thread, World, find_tid, update_tid, finalize_event_info_struct, update_fd, tagged,
}

-- What one thread sent.
unfoldable pub events_of : ℕ → List (ℕ × Event) → List Event
events_of tid [] = []
events_of tid ((k, e) ∷ es) = if k == tid then e ∷ events_of tid es else events_of tid es

-- If the entry is that of the thread, its loop is closing and at the start of a turn.
abbrev pub Quiet : ℕ → Thread → Type 0
Quiet tid t = t.tid ≡ tid → (t.eis.closing ≡ true) × (t.looked ≡ false)

abbrev pub Silenced : {Dev : Type 0} → ℕ → World Dev → Type 0
Silenced tid w = (tid < w.next) × All (Quiet tid) w.threads

pub events_of-append :
    (tid : ℕ) (xs ys : List (ℕ × Event))
    → events_of tid (xs ++ ys) ≡ events_of tid xs ++ events_of tid ys
unfolding events_of
events_of-append tid [] ys = refl
events_of-append tid ((k, e) ∷ xs) ys = elim (Bool-cases (k == tid)) [
  | inl same ↦ rw (events_of, same) (ap (λ l. e ∷ l) (events_of-append tid xs ys))
  | inr other ↦ rw (events_of, other) (events_of-append tid xs ys)
]

pub events_of-other :
    (tid k : ℕ) (events : List Event) → k ≢ tid → events_of tid (tagged k events) ≡ []
unfolding events_of
events_of-other tid k [] apart = refl
events_of-other tid k (e ∷ es) apart =
    let other : (k == tid) ≡ false = ground arith in
    rw (events_of, other) (events_of-other tid k es apart)

pub update_tid-Quiet :
    (tid k : ℕ) (f : Thread → Thread) (ts : List Thread)
    → ((t : Thread) → t.tid ≡ k → Quiet tid t → Quiet tid (f t))
    → All (Quiet tid) ts
    → All (Quiet tid) (update_tid k f ts)
unfolding update_tid
update_tid-Quiet tid k f [] keeps h = tt
update_tid-Quiet tid k f (t ∷ ts) keeps (q, qs) = elim (Bool-cases (t.tid == k)) [
  | inl same ↦
      let e : t.tid ≡ k = ground arith in
      rw (update_tid, same) (keeps t e q, update_tid-Quiet tid k f ts keeps qs)
  | inr other ↦ rw (update_tid, other) (q, update_tid-Quiet tid k f ts keeps qs)
]

pub finalize-Quiet :
    (tid k : ℕ) (ts : List Thread)
    → All (Quiet tid) ts
    → All (Quiet tid) (finalize_event_info_struct k ts)
unfolding finalize_event_info_struct
finalize-Quiet tid k [] h = tt
finalize-Quiet tid k (t ∷ ts) (q, qs) = elim (Bool-cases (t.tid == k)) [
  | inl same ↦ rw (finalize_event_info_struct, same) (finalize-Quiet tid k ts qs)
  | inr other ↦ rw (finalize_event_info_struct, other) (q, finalize-Quiet tid k ts qs)
]

pub update_fd-Quiet :
    (tid fd : ℕ) (f : EventInfo → EventInfo) (ts ts' : List Thread)
    → ((eis : EventInfo) → eis.closing ≡ true → (f eis).closing ≡ true)
    → update_fd fd f ts ≡ some ts'
    → All (Quiet tid) ts
    → All (Quiet tid) ts'
unfolding update_fd
update_fd-Quiet tid fd f [] ts' keeps e h = absurd cc
update_fd-Quiet tid fd f (t ∷ ts) ts' keeps e (q, qs) = elim (Bool-cases (t.eis.fd == fd)) [
  | inl same ↦
      let out : some (record t { eis = f t.eis } ∷ ts) ≡ some ts' = (rw (update_fd, same) at e) in
      let now : record t { eis = f t.eis } ∷ ts ≡ ts' = cc in
      subst (All (Quiet tid)) now ((λ mine. (keeps t.eis (q mine).0, (q mine).1)), qs)
  | inr other ↦ elim (Option-cases (update_fd fd f ts)) [
    | inl lost ↦ let out : none ≡ some ts' = (rw (update_fd, other, lost) at e) in absurd cc
    | inr (rest, found) ↦
        let out : some (t ∷ rest) ≡ some ts' = (rw (update_fd, other, found) at e) in
        let now : t ∷ rest ≡ ts' = cc in
        subst (All (Quiet tid)) now (q, update_fd-Quiet tid fd f ts rest keeps found qs)
  ]
]

pub append-Quiet :
    (tid : ℕ) (ts : List Thread) (t : Thread)
    → t.tid ≢ tid
    → All (Quiet tid) ts
    → All (Quiet tid) (ts ++ t ∷ [])
append-Quiet tid [] t apart h = ((λ mine. absurd (apart mine)), tt)
append-Quiet tid (u ∷ ts) t apart (q, qs) = (q, append-Quiet tid ts t apart qs)

pub find_tid-Quiet :
    (tid k : ℕ) (t : Thread) (ts : List Thread)
    → find_tid k ts ≡ some t
    → All (Quiet tid) ts
    → (t.tid ≡ k) × Quiet tid t
unfolding find_tid
find_tid-Quiet tid k t [] e h = absurd cc
find_tid-Quiet tid k t (u ∷ ts) e (q, qs) = elim (Bool-cases (u.tid == k)) [
  | inl same ↦
      let out : some u ≡ some t = (rw (find_tid, same) at e) in
      let now : u ≡ t = cc in
      let mine : u.tid ≡ k = ground arith in subst (λ v. (v.tid ≡ k) × Quiet tid v) now (mine, q)
  | inr other ↦
      let out : find_tid k ts ≡ some t = (rw (find_tid, other) at e) in
      find_tid-Quiet tid k t ts out qs
]
