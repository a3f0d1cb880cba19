-- ===== src/Effector/Partitions.antt =====
-- effector/service.py: the dispatcher, one worker for each partition, and a partition that is taken
-- away. The semaphore, which only delays a worker, and a worker that fails
-- are left out.
pub mod Sequential
use beam_agents.Base.{
  String, str_eq, Bool, true, false, ◌≡◌, Option, none, some, List, [], ◌∷◌, ◌++◌, if◌then◌else◌,
}
use beam_agents.Wire.{Bytes, ToolIntent}

-- effector/sources.py, the fields of a `DeliveredIntent` that the dispatcher reads
pub record DeliveredIntent : Type 0 where
  pub intent : ToolIntent
  pub partition : String

-- `_ActiveClaim`
pub record ActiveClaim : Type 0 where
  pub intent_id : String
  pub token : Bytes
  pub executing : Bool

-- the dispatcher: at the source, waiting for room in its delivery's queue, or waiting for room in a
-- full queue that has lost its worker
pub data Dispatcher : Type 0 where
  at_source : Dispatcher
  putting stuck : DeliveredIntent → Dispatcher

-- what the source has left, the dispatcher, and for each partition its queue of one place, the
-- delivery that its worker processes, those that it has processed, and its claim; `released` are
-- the claims handed back
pub record Partitions : Type 0 where
  pub source : List DeliveredIntent
  pub dispatcher : Dispatcher
  pub queue : String → Option DeliveredIntent
  pub current : String → Option DeliveredIntent
  pub processed : String → List DeliveredIntent
  pub claims : String → Option ActiveClaim
  pub released : List (String × Bytes)

-- `d[k] = v`
abbrev pub assign {ℓ} : {A : Type ℓ} → String → A → (String → A) → String → A
assign k v d j = if str_eq k j then v else d j

-- `run`, before the first delivery
abbrev pub started : List DeliveredIntent → Partitions
started deliveries = record {
  source = deliveries;
  dispatcher = at_source;
  queue = λ p. none;
  current = λ p. none;
  processed = λ p. [];
  claims = λ p. none;
  released = [];
}

-- `_release_claim`, of the claim that was popped
abbrev pub handed_back : Option ActiveClaim → List (String × Bytes)
handed_back none = []
handed_back (some c) = if c.executing then [] else (c.intent_id, c.token) ∷ []

-- `run` takes a delivery from the source, and its partition's queue and worker are made
unfoldable pub fetch : DeliveredIntent → List DeliveredIntent → Partitions → Partitions
fetch d rest s = record s { source = rest; dispatcher = putting d }

-- `await queue.put(delivered)` in `run`, where the queue has room
unfoldable pub put_queue : DeliveredIntent → Partitions → Partitions
put_queue d s = record s { dispatcher = at_source; queue = assign d.partition (some d) s.queue }

-- `await queue.get()` in `_worker`
unfoldable pub take_up : (partition : String) → DeliveredIntent → Partitions → Partitions
take_up p d s = record s { queue = assign p none s.queue; current = assign p (some d) s.current }

-- `process` claims the intent
unfoldable pub register_claim : (partition : String) → ActiveClaim → Partitions → Partitions
register_claim p c s = record s { claims = assign p (some c) s.claims }

-- `_mark_executing`
unfoldable pub mark_executing : (partition : String) → ActiveClaim → Partitions → Partitions
mark_executing p c s = record s {
  claims = assign p (some (record c { executing = true })) s.claims;
}

-- `process` returns
unfoldable pub conclude_delivery : (partition : String) → DeliveredIntent → Partitions → Partitions
conclude_delivery p d s = record s {
  current = assign p none s.current;
  processed = assign p (s.processed p ++ d ∷ []) s.processed;
  claims = assign p none s.claims;
}

-- the dispatcher, when a partition is taken away with its queue: a `put` into a queue with room
-- returns, into a full one it waits for a worker that is gone
abbrev pub cut_off :
    (partition : String) → (queued : Option DeliveredIntent) → Dispatcher → Dispatcher
cut_off p queued at_source = at_source
cut_off p queued (stuck d) = stuck d
cut_off p none (putting d) = if str_eq d.partition p then at_source else putting d
cut_off p (some waiting) (putting d) = if str_eq d.partition p then stuck d else putting d

-- `_on_revoked`
unfoldable pub revoke : (partition : String) → Partitions → Partitions
revoke p s = record s {
  dispatcher = cut_off p (s.queue p) s.dispatcher;
  queue = assign p none s.queue;
  current = assign p none s.current;
  claims = assign p none s.claims;
  released = s.released ++ handed_back (s.claims p);
}

-- what can happen while the partition `kept` is not taken away
pub data Step (kept : String) : Partitions → Partitions → Type 0 where
  fetches :
      {s : Partitions} (d : DeliveredIntent) (rest : List DeliveredIntent)
      → s.source ≡ d ∷ rest
      → s.dispatcher ≡ at_source
      → Step kept s (fetch d rest s)
  puts :
      {s : Partitions} (d : DeliveredIntent)
      → s.dispatcher ≡ putting d
      → s.queue d.partition ≡ none
      → Step kept s (put_queue d s)
  takes :
      {s : Partitions} (p : String) (d : DeliveredIntent)
      → s.queue p ≡ some d
      → s.current p ≡ none
      → Step kept s (take_up p d s)
  claims :
      {s : Partitions} (p : String) (d : DeliveredIntent) (token : Bytes)
      → s.current p ≡ some d
      → Step kept s (
          register_claim p
            (record { intent_id = d.intent.intent_id; token = token; executing = false })
            s)
  executes :
      {s : Partitions} (p : String) (c : ActiveClaim)
      → s.claims p ≡ some c
      → Step kept s (mark_executing p c s)
  concludes :
      {s : Partitions} (p : String) (d : DeliveredIntent)
      → s.current p ≡ some d
      → Step kept s (conclude_delivery p d s)
  revokes : {s : Partitions} (p : String) → str_eq p kept ≡ false → Step kept s (revoke p s)

pub data Reach (kept : String) (deliveries : List DeliveredIntent) : Partitions → Type 0 where
  begins : Reach kept deliveries (started deliveries)
  goes_on : {s t : Partitions} → Reach kept deliveries s → Step kept s t → Reach kept deliveries t
