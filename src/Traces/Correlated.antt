-- ===== src/Traces/Correlated.antt =====
-- observability/traces.py: how the events of an activation's attempts hang together.
use beam_agents.Base.{ℕ, ℤ, ◌≡◌, refl, sym, ap, String, true, Option, List, [], ◌∷◌}
use beam_agents.Wire.{Bytes}
use beam_agents.Replay.{WireEvent}
use beam_agents.Traces.{
  ActivationTrace, or_else, stamp, trace_id_for, span_id_for, own_span_id, own_parent_span_id,
  new_event, start_event, end_event, suspend_event, intent_event, tool_event, role_for_event_type,
  role_activation, span_for, parent_for, role_or,
}

or_else_twice :
    (given fallback : Bytes) → or_else (or_else given fallback) fallback ≡ or_else given fallback
or_else_twice [] [] = refl
or_else_twice [] (b ∷ bs) = refl
or_else_twice (g ∷ gs) fallback = refl

-- Stamping an event a second time, under the same role, changes nothing.
stamp-stamp :
    (uuid5 : String → Bytes) (self : ActivationTrace) (role : Option String) (e : WireEvent)
    → stamp uuid5 self role (stamp uuid5 self role e) ≡ stamp uuid5 self role e
unfolding stamp
stamp-stamp uuid5 self role e = λ i. record e {
  trace_id = or_else_twice e.trace_id (trace_id_for uuid5 self.entity_key self.seq) i;
  span_id =
      or_else_twice e.span_id
        (span_for uuid5 self (role_or uuid5 self role e.event_type) e.step_index) i;
  parent_span_id =
      or_else_twice e.parent_span_id (parent_for uuid5 self (role_or uuid5 self role e.event_type))
        i;
}

-- an event in the trace of another, under its span
pub record IsUnder (parent e : WireEvent) : Type 0 where
  pub traced : e.trace_id ≡ parent.trace_id
  pub parented : e.parent_span_id ≡ parent.span_id

-- a resume of the activation
abbrev pub resumed : ActivationTrace → (now_ms : ℤ) → (entry_step_index : ℕ) → ActivationTrace
resumed first now_ms entry = record first {
  now_ms = now_ms;
  entry_step_index = entry;
  is_resume = true;
}

-- Of an activation that was entered at step 0 and resumed: the start and the end of the resume
-- stand in the first attempt's trace, under the span of its start, and the tool calls, the intents
-- and the suspension of the resume stand in that trace under the span of the resume's own start.
pub resumed-IsUnder :
    (uuid5 : String → Bytes) (first : ActivationTrace) (now_ms : ℤ) (entry : ℕ)
    → first.entry_step_index ≡ 0
    → (status adapter tool_name intent_id kind : String) (pending : List String) (step index : ℕ)
      (deadline expiry : ℤ)
    → IsUnder (start_event uuid5 first) (start_event uuid5 (resumed first now_ms entry))
      × IsUnder (start_event uuid5 first) (end_event uuid5 (resumed first now_ms entry) status step)
      × IsUnder
          (start_event uuid5 (resumed first now_ms entry))
          (tool_event uuid5 (resumed first now_ms entry) step index tool_name)
      × IsUnder
          (start_event uuid5 (resumed first now_ms entry))
          (intent_event uuid5 (resumed first now_ms entry) step intent_id tool_name kind expiry)
      × IsUnder
          (start_event uuid5 (resumed first now_ms entry))
          (suspend_event uuid5 (resumed first now_ms entry) step deadline adapter pending)
unfolding start_event end_event tool_event intent_event suspend_event new_event stamp own_span_id
    own_parent_span_id role_for_event_type
resumed-IsUnder uuid5 first now_ms entry at_zero status adapter tool_name intent_id kind pending
      step index deadline expiry =
    let root : span_id_for uuid5 first.entity_key first.seq role_activation 0
        ≡ (start_event uuid5 first).span_id =
      ap (span_id_for uuid5 first.entity_key first.seq role_activation) (sym at_zero) in
    (
      record { traced = refl; parented = root },
      record { traced = refl; parented = root },
      record { traced = refl; parented = refl },
      record { traced = refl; parented = refl },
      record { traced = refl; parented = refl },
    )
