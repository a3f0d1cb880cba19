-- ===== src/Console/FeedTests.antt =====
-- The live feed at concrete inputs.
use beam_agents.Base.{◌≡◌, refl, ℕ, String, Option, none, some, List, [], ◌∷◌, arith}
use beam_agents.Console.Feed.{
  LiveEvent, RecordBatch, Broadcaster, offer, offer_all, take_next, fan_out, subscribe, release,
  discard, take_from, coalesce, tally, tally_all, publish, publish_batch, FeedKey,
}
use beam_agents.Console.Feed.Coalesce.{coalesce-exact, AreDistinct, count_for, records_for}
use beam_agents.Console.Feed.Delivery.{
  FeedStep, publishes, publishes_batch, reads, connects, leaves, IsServed, step, steps, subscribed,
  subscribed-IsServed,
}

unfoldable program : Unit {0}
unfolding offer offer_all take_next fan_out subscribe release discard take_from coalesce tally
    tally_all publish publish_batch step steps subscribed
program = tt

abbrev batch : RecordBatch
batch = record {
  events =
      record { entity_key = "aa"; seq = 1; trace_id = "t" }
      ∷ record { entity_key = "bb"; seq = 1; trace_id = "u" }
      ∷ record { entity_key = "aa"; seq = 1; trace_id = "t" }
      ∷ [];
  errors = record { entity_key = "aa"; seq = none } ∷ [];
  snapshots = [];
}

abbrev event : (kind key : String) → Option ℕ → String → ℕ → LiveEvent
event kind key seq trace count = record {
  kind = kind;
  entity_key = key;
  seq = seq;
  trace_id = trace;
  count = count;
}

coalesced :
    coalesce batch
    ≡ event "trace" "aa" (some 1) "t" 2
      ∷ event "trace" "bb" (some 1) "u" 1
      ∷ event "error" "aa" none "" 1
      ∷ []
unfolding program
coalesced = refl

coalesce-exact_example :
    AreDistinct (coalesce batch)
    × ((k : FeedKey) → count_for k (coalesce batch) ≡ records_for k batch)
coalesce-exact_example = coalesce-exact batch

abbrev feed : Broadcaster
feed = record { queue_depth = 2; subscribers = [] }

-- a second reader comes and never reads; the first misses one event
abbrev morning : List FeedStep
morning =
    connects 8
    ∷ publishes_batch batch
    ∷ reads 7
    ∷ reads 7
    ∷ leaves 8
    ∷ publishes (event "snapshot" "aa" (some 1) "" 1)
    ∷ []

seen_by_first :
    (steps 7 morning (subscribed 7 feed)).seen
    ≡ record { events = event "trace" "aa" (some 1) "t" 2 ∷ []; told = 1 }
unfolding program
seen_by_first = refl

subscribed-IsServed_example : IsServed 7 (steps 7 morning (subscribed 7 feed))
subscribed-IsServed_example =
    subscribed-IsServed 7 feed morning (omega arith) (refl, (tt, (tt, (tt, (refl, (refl, tt))))))
