-- ===== src/Effector/Partitions/Sequential.antt =====
-- effector/service.py: a partition's deliveries are processed one at a time and in order.
use beam_agents.Base.{
  String, str_eq, eq_iff, true, false, Bool-cases, inl, inr, ◌≡◌, ◌≢◌, refl, sym, ap, ◌∙◌, Option,
  none, some, List, [], ◌∷◌, ◌++◌, if◌then◌else◌,
}
use beam_agents.Effector.Partitions.{
  DeliveredIntent, Partitions, Dispatcher, at_source, putting, stuck, cut_off, fetch, put_queue,
  take_up, register_claim, mark_executing, conclude_delivery, revoke, Step, fetches, puts, takes,
  claims, executes, concludes, revokes, Reach, begins, goes_on,
}

-- the deliveries of one partition
unfoldable pub of_partition : String → List DeliveredIntent → List DeliveredIntent
of_partition p [] = []
of_partition p (d ∷ ds) =
    let rest = of_partition p ds in if str_eq d.partition p then d ∷ rest else rest

abbrev pub one : Option DeliveredIntent → List DeliveredIntent
one none = []
one (some d) = d ∷ []

-- the delivery that the dispatcher holds for a partition that is still there
abbrev pub at_hand : Dispatcher → List DeliveredIntent
at_hand at_source = []
at_hand (putting d) = d ∷ []
at_hand (stuck d) = []

-- a partition's deliveries in the order of their progress
abbrev pub progress : String → Partitions → List DeliveredIntent
progress p s =
    s.processed p
    ++ (one (s.current p)
        ++ (one (s.queue p) ++ (of_partition p (at_hand s.dispatcher) ++ of_partition p s.source)))

append_after :
    (xs : List DeliveredIntent) (d : DeliveredIntent) (ys : List DeliveredIntent)
    → (xs ++ d ∷ []) ++ ys ≡ xs ++ d ∷ ys
append_after [] d ys = refl
append_after (x ∷ xs) d ys = ap (λ r. x ∷ r) (append_after xs d ys)

-- a delivery of one partition is none of another
apart :
    (p q : String) (d : DeliveredIntent)
    → str_eq d.partition q ≡ true
    → str_eq q p ≡ false
    → str_eq d.partition p ≡ false
apart p q d same other = rw ((eq_iff d.partition q).0 same) other

-- taking one partition away leaves what is at hand for another
cut_off_elsewhere :
    (p q : String) (queued : Option DeliveredIntent) (x : Dispatcher)
    → str_eq q p ≡ false
    → of_partition p (at_hand (cut_off q queued x)) ≡ of_partition p (at_hand x)
unfolding of_partition
cut_off_elsewhere p q queued at_source other = refl
cut_off_elsewhere p q queued (stuck d) other = refl
cut_off_elsewhere p q none (putting d) other = elim (Bool-cases (str_eq d.partition q)) [
  | inl same ↦ rw (same, apart p q d same other) refl
  | inr off ↦ rw off refl
]
cut_off_elsewhere p q (some w) (putting d) other = elim (Bool-cases (str_eq d.partition q)) [
  | inl same ↦ rw (same, apart p q d same other) refl
  | inr off ↦ rw off refl
]

-- no step changes the order
Step-progress : (p : String) {s t : Partitions} → Step p s t → progress p t ≡ progress p s
unfolding fetch put_queue take_up register_claim mark_executing conclude_delivery revoke
    of_partition
Step-progress p {s} (fetches d rest e idle) = elim (Bool-cases (str_eq d.partition p)) [
  | inl same ↦ rw (e, idle, same) refl
  | inr other ↦ rw (e, idle, other) refl
]
Step-progress p {s} (puts d waits room) = elim (Bool-cases (str_eq d.partition p)) [
  | inl same ↦
      (let at : d.partition ≡ p = (eq_iff d.partition p).0 same in
        let here : s.queue p ≡ none = rw (sym at) room in rw (waits, same, here) refl)
  | inr other ↦ rw (waits, other) refl
]
Step-progress p {s} (takes q d waiting idle) = elim (Bool-cases (str_eq q p)) [
  | inl same ↦
      (let at : q ≡ p = (eq_iff q p).0 same in
        let here : s.queue p ≡ some d = rw (sym at) waiting in
        let free : s.current p ≡ none = rw (sym at) idle in rw (same, here, free) refl)
  | inr other ↦ rw other refl
]
Step-progress p (claims q d token busy) = refl
Step-progress p (executes q c held) = refl
Step-progress p {s} (concludes q d busy) = elim (Bool-cases (str_eq q p)) [
  | inl same ↦
      (let at : q ≡ p = (eq_iff q p).0 same in
        let here : s.current p ≡ some d = rw (sym at) busy in
        rw (same, here, at) (append_after (s.processed p) d _))
  | inr other ↦ rw other refl
]
Step-progress p {s} (revokes q other) =
    rw (other, cut_off_elsewhere p q (s.queue q) s.dispatcher other) refl

not_idle : (d : DeliveredIntent) → stuck d ≢ at_source
not_idle d e = cc

not_putting : (d x : DeliveredIntent) → stuck d ≢ putting x
not_putting d x e = cc

-- At any time, however the partitions interleave and whichever others are taken away: what a
-- partition has processed, the one delivery that it processes, the one that waits for it, the one
-- that the dispatcher holds for it and what the source has left for it are its deliveries, in the
-- order of the source, each once.
pub Reach-progress :
    (p : String) (deliveries : List DeliveredIntent) (s : Partitions)
    → Reach p deliveries s
    → progress p s ≡ of_partition p deliveries
unfolding of_partition
Reach-progress p deliveries s begins = refl
Reach-progress p deliveries t (goes_on {s} r step) =
    Step-progress p step ∙ Reach-progress p deliveries s r

-- Once the dispatcher waits for room in a full queue whose partition was taken away, it waits there
-- after every further step: no delivery of any partition leaves the source any more.
pub Step-stuck :
    (kept : String) (s t : Partitions) (d : DeliveredIntent)
    → Step kept s t
    → s.dispatcher ≡ stuck d
    → (t.dispatcher ≡ stuck d) × (t.source ≡ s.source)
unfolding fetch put_queue take_up register_claim mark_executing conclude_delivery revoke
Step-stuck kept s _ d (fetches e rest from idle) h = absurd (not_idle d (sym h ∙ idle))
Step-stuck kept s _ d (puts e waits room) h = absurd (not_putting d e (sym h ∙ waits))
Step-stuck kept s _ d (takes p e waiting idle) h = (h, refl)
Step-stuck kept s _ d (claims p e token busy) h = (h, refl)
Step-stuck kept s _ d (executes p c held) h = (h, refl)
Step-stuck kept s _ d (concludes p e busy) h = (h, refl)
Step-stuck kept s _ d (revokes p other) h = (ap (cut_off p (s.queue p)) h, refl)
