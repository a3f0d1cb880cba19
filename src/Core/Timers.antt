-- ===== src/Core/Timers.antt =====
-- `on_ttl`, with `_flush_expiring`, and `on_flush` of core/dofn.py. `fired_at_ms` is
-- `timestamp.micros // 1000`.
use beam_agents.Base.{
  ℕ, suc, ℤ, true, Option, none, some, List, [], ◌∷◌, ◌++◌, length, is_empty, is_some,
  if◌then◌else◌,
}
use beam_agents.Wire.{Bytes, Continuation, MemoryBlob, AgentEnvelope}
use beam_agents.Core.Migration.{Result, ok, raise, ◌>>=◌, ◌>>◌, no_longterm_store, expire_hook}
use beam_agents.Core.Batching.{trigger_timer, should_flush_on_timer}
use beam_agents.Core.State.{
  KeyState, seq_deadline, buffered_index, Output, Metric, Run, reason_ttl_wiped_suspension,
  reason_ttl_wiped_batch,
}
use beam_agents.Core.Engine.{
  AgentDoFn, read_memory, read_continuation, dead_letter, dead_letter_metric, error_trace,
}
use beam_agents.Core.Elements.{flush}

-- `_flush_expiring` on the migrated blob
unfoldable pub demote : AgentDoFn → Bytes → (seq : ℕ) → ℤ → Option MemoryBlob → Result (Unit {0})
demote self key seq expired_at_ms none = ok tt
demote self key seq expired_at_ms (some blob) =
    if is_empty blob.entries
    then ok tt
    else if self.longterm_store
    then (if self.expire_hook key seq blob expired_at_ms then ok tt else raise expire_hook)
    else raise no_longterm_store

unfoldable pub flush_expiring :
    AgentDoFn → Bytes → (expired_at_ms : ℤ) → KeyState → Result (Unit {0})
unfolding demote
flush_expiring self key expired_at_ms s = do
  blob ← read_memory self s
  demote self key s.seq expired_at_ms blob

-- one dead letter for each buffered event, numbered from `index`
unfoldable pub wiped_events :
    Bytes → (fired_at_ms : ℤ) → (buffered index : ℕ) → List AgentEnvelope → List Output
wiped_events key fired_at_ms buffered index [] = []
wiped_events key fired_at_ms buffered index (e ∷ es) =
    dead_letter key reason_ttl_wiped_batch (buffered_index buffered index) fired_at_ms
    ∷ wiped_events key fired_at_ms buffered (suc index) es

abbrev pub wiped_metrics : List AgentEnvelope → List Metric
wiped_metrics [] = []
wiped_metrics (e ∷ es) = dead_letter_metric reason_ttl_wiped_batch ∷ wiped_metrics es

abbrev pub wiped_suspension : Bytes → (fired_at_ms : ℤ) → Option Continuation → List Output
wiped_suspension key fired_at_ms none = []
wiped_suspension key fired_at_ms (some cont) =
    dead_letter key reason_ttl_wiped_suspension (seq_deadline cont.seq cont.deadline_ms) fired_at_ms
    ∷ error_trace key cont.seq fired_at_ms reason_ttl_wiped_suspension none true none
    ∷ []

abbrev pub wiped_suspension_metrics : Option Continuation → List Metric
wiped_suspension_metrics none = []
wiped_suspension_metrics (some cont) = dead_letter_metric reason_ttl_wiped_suspension ∷ []

-- the wipe at the end of `on_ttl`; the TTL and HITL timers are left as they are
unfoldable pub wipe : AgentDoFn → KeyState → KeyState
wipe self s =
    let cleared = record s {
      memory = none;
      continuation = none;
      llm_cache = none;
      pending = [];
      seq = 0;
    } in
    if is_some self.batch then record cleared { batch = []; flush_timer = none } else cleared

-- the expiry hook, where one is configured
unfoldable pub demote_first : AgentDoFn → Bytes → (fired_at_ms : ℤ) → KeyState → Result (Unit {0})
unfolding flush_expiring
demote_first self key fired_at_ms s =
    if self.on_expire then flush_expiring self key fired_at_ms s else ok tt

abbrev pub lost_events : AgentDoFn → KeyState → List AgentEnvelope
lost_events self s = if is_some self.batch then s.batch else []

-- what `on_ttl` reports and clears
unfoldable pub wiped_run :
    AgentDoFn → Bytes → (fired_at_ms : ℤ) → Option Continuation → KeyState → Run
unfolding wipe wiped_events
wiped_run self key fired_at_ms cont s = record {
  state = wipe self s;
  outputs =
      wiped_suspension key fired_at_ms cont
      ++ wiped_events key fired_at_ms (length (lost_events self s)) 0 (lost_events self s);
  metrics = wiped_suspension_metrics cont ++ wiped_metrics (lost_events self s);
}

unfoldable pub on_ttl : AgentDoFn → Bytes → (fired_at_ms : ℤ) → KeyState → Result Run
unfolding demote_first wiped_run
on_ttl self key fired_at_ms s = do
  cont ← read_continuation self s
  demote_first self key fired_at_ms s
  ok (wiped_run self key fired_at_ms cont s)

abbrev pub unchanged : KeyState → Run
unchanged s = record { state = s; outputs = []; metrics = [] }

-- `on_flush` past the migrated read of the continuation
unfoldable pub flush_if_due :
    AgentDoFn → Bytes → (wall_now_ms : ℤ) → Option Continuation → KeyState → Result Run
flush_if_due self key wall_now_ms cont s =
    if should_flush_on_timer (length s.batch) (is_some cont)
    then flush self key wall_now_ms s.batch trigger_timer s
    else ok (unchanged s)

-- `on_flush`
unfoldable pub on_flush : AgentDoFn → Bytes → (wall_now_ms : ℤ) → KeyState → Result Run
unfolding flush_if_due
on_flush self key wall_now_ms s =
    if is_some self.batch
    then (do cont ← read_continuation self s; flush_if_due self key wall_now_ms cont s)
    else ok (unchanged s)
