-- ===== src/Console/Feed.antt =====
-- console/_sse.py: the broadcast from ingest to the connected browsers. A subscriber has an
-- identifier in place of its object identity, and its wakeup event is the flag `awake`, which is
-- set at once also where another thread publishes and the reader's loop sets it a moment later: a
-- reader waits while it is off. Frames on the wire and closed reader loops are not modelled.
pub mod Mailbox
pub mod Delivery
pub mod Coalesce
use beam_agents.Base.{
  ℕ, suc, ◌+◌, leb, ◌==◌, String, str_eq, Bool, true, false, ◌&&◌, not, Option, none, some, List,
  [], ◌∷◌, ◌++◌, map, length, is_empty, if◌then◌else◌,
}

-- the fields of console/_records.py's rows that the feed reads
pub record EventRow : Type 0 where
  pub entity_key : String
  pub seq : ℕ
  pub trace_id : String

pub record ErrorRow : Type 0 where
  pub entity_key : String
  pub seq : Option ℕ

pub record SnapshotRow : Type 0 where
  pub entity_key : String
  pub seq : ℕ

pub record RecordBatch : Type 0 where
  pub events : List EventRow
  pub errors : List ErrorRow
  pub snapshots : List SnapshotRow

abbrev pub kind_trace : String
kind_trace = "trace"

abbrev pub kind_error : String
kind_error = "error"

abbrev pub kind_snapshot : String
kind_snapshot = "snapshot"

abbrev pub kind_lagged : String
kind_lagged = "lagged"

pub record LiveEvent : Type 0 where
  pub kind : String
  pub entity_key : String
  pub seq : Option ℕ
  pub trace_id : String
  pub count : ℕ

-- `_Subscriber`
pub record Subscriber : Type 0 where
  pub depth : ℕ
  pub dropped : ℕ
  pub queue : List LiveEvent
  pub awake : Bool

abbrev pub new_subscriber : (depth : ℕ) → Subscriber
new_subscriber depth = record { depth = depth; dropped = 0; queue = []; awake = false }

-- `_offer`
unfoldable pub offer : LiveEvent → Subscriber → Subscriber
offer event s =
    if leb s.depth (length s.queue)
    then record s { dropped = suc s.dropped }
    else record s { queue = s.queue ++ event ∷ []; awake = true }

unfoldable pub offer_all : List LiveEvent → Subscriber → Subscriber
unfolding offer
offer_all [] s = s
offer_all (event ∷ events) s = offer_all events (offer event s)

-- the marker that a subscriber missed events
abbrev pub lagged : (missed : ℕ) → LiveEvent
lagged missed = record {
  kind = kind_lagged;
  entity_key = "";
  seq = none;
  trace_id = "";
  count = missed;
}

-- the end of `_take`, where no event was dropped
abbrev pub next_of : List LiveEvent → Subscriber → Option LiveEvent × Subscriber
next_of [] s = (none, record s { awake = false })
next_of (event ∷ rest) s = (some event, record s { queue = rest })

-- `_take`
unfoldable pub take_next : Subscriber → Option LiveEvent × Subscriber
take_next s =
    if s.dropped == 0
    then next_of s.queue s
    else (some (lagged s.dropped), record s { dropped = 0 })

-- `Broadcaster`
pub record Broadcaster : Type 0 where
  pub queue_depth : ℕ
  pub subscribers : List (ℕ × Subscriber)

-- the constructor; `none` is the ValueError
unfoldable pub new_broadcaster : (queue_depth : ℕ) → Option Broadcaster
new_broadcaster queue_depth =
    if queue_depth == 0 then none else some (record { queue_depth = queue_depth; subscribers = [] })

abbrev pub offered_to : List LiveEvent → ℕ × Subscriber → ℕ × Subscriber
offered_to events (id, s) = (id, offer_all events s)

-- `_fan_out`
unfoldable pub fan_out : List LiveEvent → Broadcaster → Broadcaster
fan_out events b = record b { subscribers = map (offered_to events) b.subscribers }

-- `subscribe`, of an object that is new
unfoldable pub subscribe : (id : ℕ) → Broadcaster → Broadcaster
subscribe id b = record b { subscribers = (id, new_subscriber b.queue_depth) ∷ b.subscribers }

-- `_release`
unfoldable pub discard : (id : ℕ) → List (ℕ × Subscriber) → List (ℕ × Subscriber)
discard id [] = []
discard id ((j, s) ∷ rest) =
    let others = discard id rest in if j == id then others else (j, s) ∷ others

unfoldable pub release : (id : ℕ) → Broadcaster → Broadcaster
unfolding discard
release id b = record b { subscribers = discard id b.subscribers }

-- one round of `_drain`: what the reader of a subscriber takes
unfoldable pub take_from :
    (id : ℕ) → List (ℕ × Subscriber) → Option LiveEvent × List (ℕ × Subscriber)
unfolding take_next
take_from id [] = (none, [])
take_from id ((j, s) ∷ rest) =
    let (taken, left) = take_next s in
    let (found, others) = take_from id rest in
    if j == id then (taken, (j, left) ∷ rest) else (found, (j, s) ∷ others)

-- the key of `_coalesce`'s dict
pub record FeedKey : Type 0 where
  pub kind : String
  pub entity_key : String
  pub seq : Option ℕ
  pub trace_id : String

abbrev pub same_seq : Option ℕ → Option ℕ → Bool
same_seq none none = true
same_seq (some m) (some n) = m == n
same_seq _ _ = false

abbrev pub same_key : FeedKey → FeedKey → Bool
same_key j k =
    str_eq j.kind k.kind
    && (str_eq j.entity_key k.entity_key && (same_seq j.seq k.seq && str_eq j.trace_id k.trace_id))

-- `counts[key] = counts.get(key, 0) + 1`
unfoldable pub tally : FeedKey → List (FeedKey × ℕ) → List (FeedKey × ℕ)
tally key [] = (key, 1) ∷ []
tally key ((j, n) ∷ counts) =
    let rest = tally key counts in if same_key j key then (j, suc n) ∷ counts else (j, n) ∷ rest

unfoldable pub tally_all : List FeedKey → List (FeedKey × ℕ) → List (FeedKey × ℕ)
unfolding tally
tally_all [] counts = counts
tally_all (key ∷ keys) counts = tally_all keys (tally key counts)

abbrev pub event_row_key : EventRow → FeedKey
event_row_key r = record {
  kind = kind_trace;
  entity_key = r.entity_key;
  seq = some r.seq;
  trace_id = r.trace_id;
}

abbrev pub error_row_key : ErrorRow → FeedKey
error_row_key r = record {
  kind = kind_error;
  entity_key = r.entity_key;
  seq = r.seq;
  trace_id = "";
}

abbrev pub snapshot_row_key : SnapshotRow → FeedKey
snapshot_row_key r = record {
  kind = kind_snapshot;
  entity_key = r.entity_key;
  seq = some r.seq;
  trace_id = "";
}

abbrev pub live_event : FeedKey × ℕ → LiveEvent
live_event (k, count) = record {
  kind = k.kind;
  entity_key = k.entity_key;
  seq = k.seq;
  trace_id = k.trace_id;
  count = count;
}

-- `_coalesce`: the three loops fill one dict, one after the other
unfoldable pub coalesce : RecordBatch → List LiveEvent
unfolding tally_all
coalesce batch = map live_event (
    tally_all (map snapshot_row_key batch.snapshots)
      (tally_all (map error_row_key batch.errors) (tally_all (map event_row_key batch.events) [])))

-- `publish` and `publish_batch`
unfoldable pub publish : LiveEvent → Broadcaster → Broadcaster
unfolding fan_out
publish event b = fan_out (event ∷ []) b

unfoldable pub publish_batch : RecordBatch → Broadcaster → Broadcaster
unfolding fan_out coalesce
publish_batch batch b = fan_out (coalesce batch) b
