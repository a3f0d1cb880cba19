-- ===== src/Console/Feed/Coalesce.antt =====
-- console/_sse.py: a batch as one event for each kind and activation.
use beam_agents.Base.{
  ℕ, ◌+◌, ◌≡◌, refl, sym, ap, ◌∙◌, str_eq, eq_iff, eq_refl, Bool, true, false, Bool-cases, inl, inr,
  Option, none, some, List, [], ◌∷◌, map, All, arith, if◌then◌else◌,
}
use beam_agents.Console.Feed.{
  LiveEvent, RecordBatch, FeedKey, same_seq, same_key, tally, tally_all, live_event, coalesce,
  event_row_key, error_row_key, snapshot_row_key, kind_lagged,
}

abbrev pub IsPlain : LiveEvent → Type 0
IsPlain e = str_eq e.kind kind_lagged ≡ false

abbrev PlainKey : FeedKey → Type 0
PlainKey k = str_eq k.kind kind_lagged ≡ false

tally-PlainKey :
    (k : FeedKey) (counts : List (FeedKey × ℕ))
    → PlainKey k
    → All (λ c. PlainKey c.0) counts
    → All (λ c. PlainKey c.0) (tally k counts)
unfolding tally
tally-PlainKey k [] p h = (p, tt)
tally-PlainKey k ((j, n) ∷ counts) p (q, h) = elim (Bool-cases (same_key j k)) [
  | inl same ↦ rw same (q, h)
  | inr other ↦ rw other (q, tally-PlainKey k counts p h)
]

tally_all-PlainKey :
    (keys : List FeedKey) (counts : List (FeedKey × ℕ))
    → All PlainKey keys
    → All (λ c. PlainKey c.0) counts
    → All (λ c. PlainKey c.0) (tally_all keys counts)
unfolding tally_all
tally_all-PlainKey [] counts p h = h
tally_all-PlainKey (k ∷ keys) counts (q, p) h =
    tally_all-PlainKey keys (tally k counts) p (tally-PlainKey k counts q h)

All-map_plain :
    {A : Type 0} (f : A → FeedKey)
    → ((a : A) → PlainKey (f a))
    → (xs : List A) → All PlainKey (map f xs)
All-map_plain f h [] = tt
All-map_plain f h (x ∷ xs) = (h x, All-map_plain f h xs)

live-IsPlain :
    (counts : List (FeedKey × ℕ))
    → All (λ c. PlainKey c.0) counts
    → All IsPlain (map live_event counts)
live-IsPlain [] h = tt
live-IsPlain ((k, n) ∷ counts) (p, h) = (p, live-IsPlain counts h)

-- no batch makes the marker of missed events
pub coalesce-IsPlain : (batch : RecordBatch) → All IsPlain (coalesce batch)
unfolding coalesce
coalesce-IsPlain batch = live-IsPlain _ (
    tally_all-PlainKey (map snapshot_row_key batch.snapshots) _
      (All-map_plain snapshot_row_key (λ r. refl) batch.snapshots)
      (tally_all-PlainKey (map error_row_key batch.errors) _
        (All-map_plain error_row_key (λ r. refl) batch.errors)
        (tally_all-PlainKey (map event_row_key batch.events) []
          (All-map_plain event_row_key (λ r. refl) batch.events) tt)))

seq_eq : (a b : Option ℕ) → same_seq a b ≡ true → a ≡ b
seq_eq none none h = refl
seq_eq none (some n) h = cc
seq_eq (some m) none h = cc
seq_eq (some m) (some n) h = ap some (ground (arith, h))

same_seq_refl : (a : Option ℕ) → same_seq a a ≡ true
same_seq_refl none = refl
same_seq_refl (some n) = ground arith

same_key-eq : (j k : FeedKey) → same_key j k ≡ true → j ≡ k
same_key-eq j k h = λ i. record {
  kind = (eq_iff j.kind k.kind).0 (ground (arith, h)) i;
  entity_key = (eq_iff j.entity_key k.entity_key).0 (ground (arith, h)) i;
  seq = seq_eq j.seq k.seq (ground (arith, h)) i;
  trace_id = (eq_iff j.trace_id k.trace_id).0 (ground (arith, h)) i;
}

same_key_refl : (k : FeedKey) → same_key k k ≡ true
same_key_refl k =
    rw (eq_refl k.kind, eq_refl k.entity_key, same_seq_refl k.seq, eq_refl k.trace_id) refl

same_key_flip : (j k : FeedKey) → same_key j k ≡ false → same_key k j ≡ false
same_key_flip j k h = elim (Bool-cases (same_key k j)) [
  | inr other ↦ other
  | inl same ↦
      (let clash : same_key j j ≡ false = rw (same_key-eq k j same) at h in
        let absurdity : true ≡ false = sym (same_key_refl j) ∙ clash in cc)
]

-- `1` for the key itself
abbrev one_if : Bool → ℕ
one_if b = if b then 1 else 0

unfoldable pub occurrences : FeedKey → List FeedKey → ℕ
occurrences k [] = 0
occurrences k (j ∷ js) = one_if (same_key j k) + occurrences k js

unfoldable count_of : FeedKey → List (FeedKey × ℕ) → ℕ
count_of k [] = 0
count_of k ((j, n) ∷ counts) = let rest = count_of k counts in if same_key j k then n else rest

count_of-tally :
    (k key : FeedKey) (counts : List (FeedKey × ℕ))
    → count_of k (tally key counts) ≡ count_of k counts + one_if (same_key key k)
unfolding count_of tally
count_of-tally k key [] = omega arith
count_of-tally k key ((j, n) ∷ counts) = elim (Bool-cases (same_key j key)) [
  | inl same ↦
      (let as_key : same_key j k ≡ same_key key k =
          ap (λ x. same_key x k) (same_key-eq j key same) in
        elim (Bool-cases (same_key j k)) [
          | inl agree ↦ rw (same, agree, sym as_key ∙ agree) (omega arith)
          | inr differ ↦ rw (same, differ, sym as_key ∙ differ) (omega arith)
        ])
  | inr other ↦ elim (Bool-cases (same_key j k)) [
    | inl agree ↦ rw (other, agree, unlike other agree) (omega arith)
    | inr differ ↦ rw (other, differ) (count_of-tally k key counts)
  ]
]
  where
    unlike : same_key j key ≡ false → same_key j k ≡ true → same_key key k ≡ false
    unlike other agree = elim (Bool-cases (same_key key k)) [
      | inr differ ↦ differ
      | inl same ↦ (let clash : same_key j k ≡ false = rw (same_key-eq key k same) at other in cc)
    ]

count_of-tally_all :
    (k : FeedKey) (keys : List FeedKey) (counts : List (FeedKey × ℕ))
    → count_of k (tally_all keys counts) ≡ count_of k counts + occurrences k keys
unfolding tally_all occurrences
count_of-tally_all k [] counts = omega arith
count_of-tally_all k (key ∷ keys) counts =
    omega (arith, count_of-tally_all k keys (tally key counts), count_of-tally k key counts)

-- no two entries for one key
abbrev Distinct : List (FeedKey × ℕ) → Type 0
Distinct [] = Unit
Distinct ((k, n) ∷ counts) = All (λ c. same_key c.0 k ≡ false) counts × Distinct counts

absent-tally :
    (k key : FeedKey) (counts : List (FeedKey × ℕ))
    → same_key key k ≡ false
    → All (λ c. same_key c.0 k ≡ false) counts
    → All (λ c. same_key c.0 k ≡ false) (tally key counts)
unfolding tally
absent-tally k key [] p h = (p, tt)
absent-tally k key ((j, n) ∷ counts) p (q, h) = elim (Bool-cases (same_key j key)) [
  | inl same ↦ rw same (q, h)
  | inr other ↦ rw other (q, absent-tally k key counts p h)
]

Distinct-tally :
    (key : FeedKey) (counts : List (FeedKey × ℕ)) → Distinct counts → Distinct (tally key counts)
unfolding tally
Distinct-tally key [] h = (tt, tt)
Distinct-tally key ((j, n) ∷ counts) (new, h) = elim (Bool-cases (same_key j key)) [
  | inl same ↦ rw same (new, h)
  | inr other ↦
      rw other
        (absent-tally j key counts (same_key_flip j key other) new, Distinct-tally key counts h)
]

Distinct-tally_all :
    (keys : List FeedKey) (counts : List (FeedKey × ℕ))
    → Distinct counts
    → Distinct (tally_all keys counts)
unfolding tally_all
Distinct-tally_all [] counts h = h
Distinct-tally_all (key ∷ keys) counts h =
    Distinct-tally_all keys (tally key counts) (Distinct-tally key counts h)

abbrev pub key_of : LiveEvent → FeedKey
key_of e = record { kind = e.kind; entity_key = e.entity_key; seq = e.seq; trace_id = e.trace_id }

-- what the events say of one kind and activation
unfoldable pub count_for : FeedKey → List LiveEvent → ℕ
count_for k [] = 0
count_for k (e ∷ es) = let rest = count_for k es in if same_key (key_of e) k then e.count else rest

abbrev pub AreDistinct : List LiveEvent → Type 0
AreDistinct [] = Unit
AreDistinct (e ∷ es) = All (λ x. same_key (key_of x) (key_of e) ≡ false) es × AreDistinct es

count_for-live :
    (k : FeedKey) (counts : List (FeedKey × ℕ))
    → count_for k (map live_event counts) ≡ count_of k counts
unfolding count_for count_of
count_for-live k [] = refl
count_for-live k ((j, n) ∷ counts) = rw (count_for-live k counts) refl

live-absent :
    (k : FeedKey) (counts : List (FeedKey × ℕ))
    → All (λ c. same_key c.0 k ≡ false) counts
    → All (λ x. same_key (key_of x) k ≡ false) (map live_event counts)
live-absent k [] h = tt
live-absent k ((j, n) ∷ counts) (p, h) = (p, live-absent k counts h)

live-Distinct :
    (counts : List (FeedKey × ℕ)) → Distinct counts → AreDistinct (map live_event counts)
live-Distinct [] h = tt
live-Distinct ((j, n) ∷ counts) (new, h) = (live-absent j counts new, live-Distinct counts h)

-- how many records of a batch are of one kind and activation
abbrev pub records_for : FeedKey → RecordBatch → ℕ
records_for k batch =
    occurrences k (map event_row_key batch.events)
    + occurrences k (map error_row_key batch.errors)
    + occurrences k (map snapshot_row_key batch.snapshots)

-- A batch is published as at most one event for each kind and activation, and the counts that the
-- events give for a kind and activation are the number of the batch's records of it.
pub coalesce-exact :
    (batch : RecordBatch)
    → AreDistinct (coalesce batch)
      × ((k : FeedKey) → count_for k (coalesce batch) ≡ records_for k batch)
unfolding coalesce count_of
coalesce-exact batch =
    let traces = map event_row_key batch.events in
    let errors = map error_row_key batch.errors in
    let snapshots = map snapshot_row_key batch.snapshots in
    (
      live-Distinct _ (
          Distinct-tally_all snapshots _
            (Distinct-tally_all errors _ (Distinct-tally_all traces [] tt))),
      λ k. omega (
        arith,
        count_for-live k (tally_all snapshots (tally_all errors (tally_all traces []))),
        count_of-tally_all k snapshots (tally_all errors (tally_all traces [])),
        count_of-tally_all k errors (tally_all traces []),
        count_of-tally_all k traces [],
      ),
    )
