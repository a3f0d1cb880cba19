-- ===== src/Effector/Service/Durable.antt =====
-- A result is published only from a durable record: `_execute` of effector/service.py.
use beam_agents.Base.{
  ℕ, zero, suc, ◌*◌, ◌≡◌, ◌&&◌, refl, ap, Bool, true, false, some, List, [], ◌∷◌, ◌++◌,
}
use beam_agents.Wire.{ToolIntent, ToolResult, Status}
use beam_agents.Effector.Runner.{Execution, concluded, was_cancelled}
use beam_agents.Effector.Service.{
  result_posted, Effect, completed, published, committed, End, finished, publish_failed, Config,
  Answers, last_sleep, cancelled, waiting, Sending, arrived, transport_error, interrupted,
  attempted, followed, with_retry, status_count, publish_then, store_result, execute,
}

-- Along the log, a result is posted only while the last terminal record was stored; `ok` says
-- whether one was before.
abbrev pub durable : (stored : Bool) → List Effect → Bool
durable stored [] = true
durable stored (completed id r b ∷ es) = durable b es
durable stored (published (result_posted r) s ∷ es) = stored && durable stored es
durable stored (_ ∷ es) = durable stored es

slept-durable :
    (left backoff : ℕ) (es : List Effect)
    → durable true es ≡ true
    → durable true (last_sleep left backoff ++ es) ≡ true
slept-durable zero backoff es h = h
slept-durable (suc left) backoff es h = h

append_assoc : (xs ys zs : List Effect) → (xs ++ ys) ++ zs ≡ xs ++ (ys ++ zs)
append_assoc [] ys zs = refl
append_assoc (x ∷ xs) ys zs = ap (λ es. x ∷ es) (append_assoc xs ys zs)

append_nil : (xs : List Effect) → xs ++ [] ≡ xs
append_nil [] = refl
append_nil (x ∷ xs) = ap (λ es. x ∷ es) (append_nil xs)

attempted-durable :
    (x : Sending) (r : ToolResult) (left backoff : ℕ) (rest : List Effect × End)
    (after : List Effect)
    → durable true after ≡ true
    → durable true (rest.0 ++ after) ≡ true
    → durable true ((attempted x (result_posted r) left backoff rest).0 ++ after) ≡ true
attempted-durable arrived r left backoff rest after h k = h
attempted-durable interrupted r left backoff rest after h k = h
attempted-durable transport_error r left backoff (rest, end) after h k =
    rw (append_assoc (last_sleep left backoff) rest after) (slept-durable left backoff _ k)

retry-durable :
    (r : ToolResult) (sent : ℕ → Sending) (left backoff : ℕ) (after : List Effect)
    → durable true after ≡ true
    → durable true ((with_retry (result_posted r) sent left backoff).0 ++ after) ≡ true
unfolding with_retry
retry-durable r sent zero backoff after h = h
retry-durable r sent (suc left) backoff after h =
    attempted-durable (sent left) r left backoff _ after h
      (retry-durable r sent left (backoff * 2) after h)

either-durable :
    (tries after : List Effect) (end : End)
    → durable true (tries ++ after) ≡ true
    → durable true (tries ++ []) ≡ true
    → durable true (followed tries after end).0 ≡ true
either-durable tries after finished h k = h
either-durable tries after publish_failed h k = rw (← append_nil tries) k
either-durable tries after cancelled h k = rw (← append_nil tries) k
either-durable tries after waiting h k = rw (← append_nil tries) k

count-durable :
    (stored : Bool) (s : Status) (es : List Effect)
    → durable stored (status_count s ++ es) ≡ durable stored es
count-durable stored Status.ok es = refl
count-durable stored Status.error es = refl
count-durable stored Status.expired es = refl
count-durable stored Status.rejected es = refl
count-durable stored Status.status_unspecified es = refl

module _ (config : Config) (intent : ToolIntent) (answers : Answers) where
  store_result-durable :
      (stored : Bool) (r : ToolResult)
      → durable stored (store_result config intent answers stored r).0 ≡ true
  unfolding store_result publish_then
  store_result-durable true r =
      either-durable
        (with_retry (result_posted r) answers.sent config.publish_max_attempts
          config.publish_backoff_ms).0
        (committed ∷ [])
        (with_retry (result_posted r) answers.sent config.publish_max_attempts
          config.publish_backoff_ms).1
        (retry-durable r answers.sent config.publish_max_attempts config.publish_backoff_ms
          (committed ∷ []) refl)
        (retry-durable r answers.sent config.publish_max_attempts config.publish_backoff_ms [] refl)
  store_result-durable false r = refl

  -- Whatever the tool does and however the publishes go, an execution posts its result only after
  -- its terminal record was stored.
  pub execute-durable : (e : Execution) → durable false (execute config intent answers e).0 ≡ true
  unfolding execute
  execute-durable (was_cancelled true) = refl
  execute-durable (was_cancelled false) = refl
  execute-durable (concluded true r) =
      rw
        (
          append_assoc (status_count r.status)
              (completed intent.intent_id (some r) answers.stored ∷ [])
              (store_result config intent answers answers.stored r).0,
          count-durable false r.status,
        )
        (store_result-durable answers.stored r)
  execute-durable (concluded false r) =
      rw
        (
          append_assoc (status_count r.status)
              (completed intent.intent_id (some r) answers.stored ∷ [])
              (store_result config intent answers answers.stored r).0,
          count-durable false r.status,
        )
        (store_result-durable answers.stored r)
