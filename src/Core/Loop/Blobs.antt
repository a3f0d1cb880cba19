-- ===== src/Core/Loop/Blobs.antt =====
-- The blobs of a result keep their caps.
use beam_agents.Base.{◌≤◌, ◌≡◌, length, arith}
use beam_agents.Core.State.{ActivationResult}
use beam_agents.Core.Engine.{ActivationArgs, finished}
use beam_agents.Core.Context.{
  CacheDocument, Environment, Settings, ActivationContext, new_context, compute_cache_key,
}
use beam_agents.Core.Loop.{Agent, run_activation}
use beam_agents.Core.Loop.Closure.{IsClosed, closed_IsInvariant, key_of}
use beam_agents.Core.Loop.Endings.{Ends, by_completion, by_suspension, run_activation-From}
use beam_agents.Memory.{hard_cap_bytes, to_blob as memory_to_blob}
use beam_agents.Memory.Caps.{IsWithin, HookShrinks, call_memory-IsWithin}
use beam_agents.Model.ReplayCache.{max_entries, blob_cap_bytes, put, to_blob}
use beam_agents.Model.ReplayCache.Accounting.{IsAccounted, get-IsAccounted}
use beam_agents.Model.ReplayCache.Bounds.{IsCompact, put-IsBounded}
use beam_agents.Model.ReplayCache.Sizes.{get-few, get-wire, wire-le, length-entry_protos}

-- the caps of the staged memory and cache
pub record IsHealthy (args : ActivationArgs) (c : ActivationContext) : Type 0 where
  pub memory : IsWithin c.memory
  pub cache : IsAccounted args.now_ms c.replay_cache
  pub few : length c.replay_cache.entries ≤ max_entries
  pub small : c.replay_cache.entries_wire_total ≤ blob_cap_bytes

module _ (env : Environment) (settings : Settings) (args : ActivationArgs)
    (compact : (d : CacheDocument) → IsCompact env.codec args.now_ms (env.hexdigest d))
    (shrinks : HookShrinks settings.compactor) where
  closed-IsHealthy : IsClosed env settings args (IsHealthy args)
  unfolding compute_cache_key
  closed-IsHealthy = record {
    unread = λ c traces budget longterm tool_index asked h. record {
      memory = h.memory;
      cache = h.cache;
      few = h.few;
      small = h.small;
    };
    looked_up = λ request c h.
        let k = key_of env settings args request in
        record {
          memory = h.memory;
          cache = get-IsAccounted k c.replay_cache h.cache;
          few = omega (arith, get-few k c.replay_cache, h.few);
          small = omega (arith, get-wire k c.replay_cache, h.small);
        };
    cached = λ request bytes ms c h.
        let k = key_of env settings args request in
        let left = put-IsBounded env.codec args.now_ms k (compact _) bytes c.replay_cache h.cache in
        record {
          memory = h.memory;
          cache = left.accounted;
          few = left.few;
          small = wire-le (put env.codec k bytes c.replay_cache) left.small;
        };
    ran = λ ms c h. record { memory = h.memory; cache = h.cache; few = h.few; small = h.small };
    staged_one = λ tool_name args_json kind ttl_ms c h. record {
      memory = h.memory;
      cache = h.cache;
      few = h.few;
      small = h.small;
    };
    remembered = λ op c h. record {
      memory = call_memory-IsWithin settings.compactor op c.memory shrinks h.memory;
      cache = h.cache;
      few = h.few;
      small = h.small;
    };
    used = λ t c a b d e h. record {
      memory = h.memory;
      cache = h.cache;
      few = h.few;
      small = h.small;
    };
  }

  Ends-blobs :
      (c : ActivationContext) (r : ActivationResult)
      → IsHealthy args c
      → Ends env settings args c r
      → (r.memory_blob.total_value_bytes ≤ hard_cap_bytes)
        × (length r.cache_blob.entries ≤ max_entries)
  unfolding memory_to_blob to_blob
  Ends-blobs c r h (by_completion output e) =
      rw e (h.memory.within, omega (arith, h.few, length-entry_protos c.replay_cache.entries))
  Ends-blobs c r h (by_suspension snapshot adapter timeout_ms e) =
      rw e (h.memory.within, omega (arith, h.few, length-entry_protos c.replay_cache.entries))

  -- For any agent whose context starts within the caps, with a compactor that does not let the
  -- memory grow, digests of 32 bytes, and entries of a digest alone that take at most 255 bytes
  -- under every cache key (`IsCompact`): every result's working memory is within its hard cap, and
  -- its replay cache has at most 64 entries.
  pub run_activation-blobs :
      (agent : Agent) (r : ActivationResult)
      → IsHealthy args (new_context env settings args)
      → run_activation env settings args agent ≡ finished r
      → (r.memory_blob.total_value_bytes ≤ hard_cap_bytes)
        × (length r.cache_blob.entries ≤ max_entries)
  run_activation-blobs agent r healthy h =
      let (c, q, ends) =
        run_activation-From env settings args (IsHealthy args)
          (closed_IsInvariant env settings args (IsHealthy args) closed-IsHealthy) agent r healthy
          h in
      Ends-blobs c r q ends
