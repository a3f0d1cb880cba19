-- ===== src/Console/Feed/Mailbox.antt =====
-- console/_sse.py: one subscriber's mailbox under offers and takes.
use beam_agents.Base.{
  ℕ, ◌+◌, ◌≤◌, ◌<◌, leb, ◌==◌, ◌≡◌, ◌≢◌, refl, sym, ap, ◌∙◌, str_eq, false, Bool-cases, inl, inr,
  Option, none, some, List, [], ◌∷◌, ◌++◌, length, length-append, All, arith, if◌then◌else◌,
}
use beam_agents.Console.Feed.{
  LiveEvent, Subscriber, new_subscriber, offer, next_of, take_next, kind_lagged,
}

-- the first list is the second with elements left out
pub data IsWithin : List LiveEvent → List LiveEvent → Type 0 where
  nothing : IsWithin [] []
  kept : {e : LiveEvent} {xs ys : List LiveEvent} → IsWithin xs ys → IsWithin (e ∷ xs) (e ∷ ys)
  missed : {e : LiveEvent} {xs ys : List LiveEvent} → IsWithin xs ys → IsWithin xs (e ∷ ys)

IsWithin-snoc_kept :
    (xs ys : List LiveEvent) (e : LiveEvent)
    → IsWithin xs ys
    → IsWithin (xs ++ e ∷ []) (ys ++ e ∷ [])
IsWithin-snoc_kept _ _ e nothing = kept nothing
IsWithin-snoc_kept _ _ e (kept h) = kept (IsWithin-snoc_kept _ _ e h)
IsWithin-snoc_kept _ _ e (missed h) = missed (IsWithin-snoc_kept _ _ e h)

IsWithin-snoc_missed :
    (xs ys : List LiveEvent) (e : LiveEvent) → IsWithin xs ys → IsWithin xs (ys ++ e ∷ [])
IsWithin-snoc_missed _ _ e nothing = missed nothing
IsWithin-snoc_missed _ _ e (kept h) = kept (IsWithin-snoc_missed _ _ e h)
IsWithin-snoc_missed _ _ e (missed h) = missed (IsWithin-snoc_missed _ _ e h)

-- what the reader has seen: the events, and how many it was told that it missed
pub record Seen : Type 0 where
  pub events : List LiveEvent
  pub told : ℕ

-- a delivery, read by its kind
abbrev pub see : Option LiveEvent → Seen → Seen
see none v = v
see (some e) v =
    if str_eq e.kind kind_lagged
    then record v { told = v.told + e.count }
    else record v { events = v.events ++ e ∷ [] }

-- A mailbox after `offered`, of which its reader has seen `seen`.
pub record IsSettled (offered : List LiveEvent) (seen : Seen) (s : Subscriber) : Type 0 where
  pub bounded : length s.queue ≤ s.depth
  pub room : 1 ≤ s.depth
  -- a reader that waits has nothing to take
  pub woken : s.awake ≡ false → (s.queue ≡ []) × (s.dropped ≡ 0)
  -- what was seen and what waits is what was offered, in order, less what was dropped
  pub ordered : IsWithin (seen.events ++ s.queue) offered
  pub counted : length seen.events + length s.queue + (seen.told + s.dropped) ≡ length offered
  pub plain : All (λ e. str_eq e.kind kind_lagged ≡ false) s.queue

pub fresh-IsSettled :
    (depth : ℕ) → 1 ≤ depth → IsSettled [] (record { events = []; told = 0 }) (new_subscriber depth)
fresh-IsSettled depth room = record {
  bounded = omega arith;
  room = room;
  woken = λ off. (refl, refl);
  ordered = nothing;
  counted = refl;
  plain = tt;
}

snoc_assoc : (xs ys : List LiveEvent) (e : LiveEvent) → xs ++ (ys ++ e ∷ []) ≡ (xs ++ ys) ++ e ∷ []
snoc_assoc [] ys e = refl
snoc_assoc (x ∷ xs) ys e = ap (λ r. x ∷ r) (snoc_assoc xs ys e)

pub cons_assoc :
    (xs : List LiveEvent) (x : LiveEvent) (ys : List LiveEvent)
    → (xs ++ x ∷ []) ++ ys ≡ xs ++ x ∷ ys
cons_assoc [] x ys = refl
cons_assoc (z ∷ xs) x ys = ap (λ r. z ∷ r) (cons_assoc xs x ys)

cons_not_nil : (x : LiveEvent) (xs : List LiveEvent) → x ∷ xs ≢ []
cons_not_nil x xs e = cc

All-snoc_plain :
    (xs : List LiveEvent) (e : LiveEvent)
    → All (λ x. str_eq x.kind kind_lagged ≡ false) xs
    → str_eq e.kind kind_lagged ≡ false
    → All (λ x. str_eq x.kind kind_lagged ≡ false) (xs ++ e ∷ [])
All-snoc_plain [] e h p = (p, tt)
All-snoc_plain (x ∷ xs) e (q, h) p = (q, All-snoc_plain xs e h p)

pub offer-IsSettled :
    (offered : List LiveEvent) (seen : Seen) (e : LiveEvent) (s : Subscriber)
    → str_eq e.kind kind_lagged ≡ false
    → IsSettled offered seen s
    → IsSettled (offered ++ e ∷ []) seen (offer e s)
unfolding offer
offer-IsSettled offered seen e s p h = elim (Bool-cases (leb s.depth (length s.queue))) [
  | inl full ↦ rw full (record {
    bounded = h.bounded;
    room = h.room;
    woken = λ off. absurd (ground (arith, full, ap length (h.woken off).0, h.room));
    ordered = IsWithin-snoc_missed _ _ e h.ordered;
    counted = omega (arith, h.counted, length-append offered (e ∷ []));
    plain = h.plain;
  })
  | inr open_slot ↦ rw open_slot (
      let below : length s.queue < s.depth = ground (arith, open_slot) in
      record {
        bounded = omega (arith, length-append s.queue (e ∷ []), below);
        room = h.room;
        woken = λ off. cc;
        ordered = rw (snoc_assoc seen.events s.queue e) (IsWithin-snoc_kept _ _ e h.ordered);
        counted =
            omega
              (arith, h.counted, length-append offered (e ∷ []), length-append s.queue (e ∷ []));
        plain = All-snoc_plain s.queue e h.plain p;
      })
]

next_of-IsSettled :
    (offered : List LiveEvent) (seen : Seen) (q : List LiveEvent) (s : Subscriber)
    → s.queue ≡ q
    → s.dropped ≡ 0
    → IsSettled offered seen s
    → IsSettled offered (see (next_of q s).0 seen) (next_of q s).1
next_of-IsSettled offered seen [] s e none_dropped h = record {
  bounded = h.bounded;
  room = h.room;
  woken = λ off. (e, none_dropped);
  ordered = h.ordered;
  counted = h.counted;
  plain = h.plain;
}
next_of-IsSettled offered seen (x ∷ rest) s e none_dropped h =
    let plain : All (λ y. str_eq y.kind kind_lagged ≡ false) (x ∷ rest) = rw e at h.plain in
    let bounded : length (x ∷ rest) ≤ s.depth = rw e at h.bounded in
    let ordered : IsWithin (seen.events ++ x ∷ rest) offered = rw e at h.ordered in
    let counted : length seen.events + length (x ∷ rest) + (seen.told + s.dropped)
        ≡ length offered =
      rw e at h.counted in
    rw plain.0 (record {
      bounded = omega (arith, bounded);
      room = h.room;
      woken = λ off. absurd (cons_not_nil x rest (sym e ∙ (h.woken off).0));
      ordered = rw (cons_assoc seen.events x rest) ordered;
      counted = omega (arith, counted, length-append seen.events (x ∷ []));
      plain = plain.1;
    })

pub take_next-IsSettled :
    (offered : List LiveEvent) (seen : Seen) (s : Subscriber)
    → IsSettled offered seen s
    → IsSettled offered (see (take_next s).0 seen) (take_next s).1
unfolding take_next
take_next-IsSettled offered seen s h = elim (Bool-cases (s.dropped == 0)) [
  | inl no_gap ↦
      rw no_gap (next_of-IsSettled offered seen s.queue s refl (ground (arith, no_gap)) h)
  | inr gap ↦ rw gap (record {
    bounded = h.bounded;
    room = h.room;
    woken = λ off. ((h.woken off).0, refl);
    ordered = h.ordered;
    counted = omega (arith, h.counted);
    plain = h.plain;
  })
]
