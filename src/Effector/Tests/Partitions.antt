-- ===== src/Effector/Tests/Partitions.antt =====
-- Two partitions, of which one is taken away while the other works.
use beam_agents.Base.{◌≡◌, refl, pos, String, false, none, List, [], ◌∷◌}
use beam_agents.Wire.{ToolIntent, tool, scheme_unspecified}
use beam_agents.Effector.Partitions.{
  DeliveredIntent, Partitions, started, stuck, fetch, put_queue, take_up, register_claim,
  mark_executing, conclude_delivery, revoke, Reach, begins, goes_on, fetches, puts, takes, claims,
  revokes, concludes,
}
use beam_agents.Effector.Partitions.Sequential.{progress, of_partition, Reach-progress}

unfoldable program : Unit {0}
unfolding fetch put_queue take_up register_claim mark_executing conclude_delivery revoke
    of_partition
program = tt

abbrev intent : String → ToolIntent
intent id = record {
  intent_id = id;
  entity_key = 1 ∷ [];
  seq = 0;
  step_index = 0;
  tool_name = "t";
  args_json = "{}";
  created_at_ms = pos 0;
  expires_at_ms = pos 100;
  attempt = 0;
  kind = tool;
  trace_id = [];
  signature_scheme = scheme_unspecified;
  signing_key_id = "";
  signature = [];
}

abbrev delivery : String → String → DeliveredIntent
delivery id partition = record { intent = intent id; partition = partition }

abbrev deliveries : List DeliveredIntent
deliveries = delivery "a" "p" ∷ delivery "b" "q" ∷ delivery "c" "p" ∷ []

-- "a" is processed; "b" is claimed and handed back; "c" waits
abbrev last : Partitions
last = put_queue (delivery "c" "p") (
    fetch (delivery "c" "p") [] (
      conclude_delivery "p" (delivery "a" "p") (
        revoke "q" (
          register_claim "q" (record { intent_id = "b"; token = 9 ∷ []; executing = false })
            (take_up "q" (delivery "b" "q") (
              put_queue (delivery "b" "q") (
                fetch (delivery "b" "q") (delivery "c" "p" ∷ []) (
                  take_up "p" (delivery "a" "p") (
                    put_queue (delivery "a" "p") (
                      fetch (delivery "a" "p") (delivery "b" "q" ∷ delivery "c" "p" ∷ [])
                        (started deliveries)))))))))))

reached : Reach "p" deliveries last
unfolding program
reached =
    goes_on
      (goes_on
        (goes_on
          (goes_on
            (goes_on
              (goes_on
                (goes_on
                  (goes_on
                    (goes_on (goes_on (goes_on begins (fetches _ _ refl refl)) (puts _ refl refl))
                      (takes "p" _ refl refl))
                    (fetches _ _ refl refl))
                  (puts _ refl refl))
                (takes "q" _ refl refl))
              (claims "q" _ (9 ∷ []) refl))
            (revokes "q" refl))
          (concludes "p" _ refl))
        (fetches _ _ refl refl))
      (puts _ refl refl)

given_back : last.released ≡ ("b", 9 ∷ []) ∷ []
unfolding program
given_back = refl

Reach-progress_example : progress "p" last ≡ of_partition "p" deliveries
Reach-progress_example = Reach-progress "p" deliveries last reached

abbrev crowd : List DeliveredIntent
crowd = delivery "x" "q" ∷ delivery "y" "q" ∷ delivery "z" "q" ∷ delivery "a" "p" ∷ []

-- "x" is processed, "y" waits in the queue, and "z" waits for room in it
abbrev crowded : Partitions
crowded = fetch (delivery "z" "q") (delivery "a" "p" ∷ []) (
    put_queue (delivery "y" "q") (
      fetch (delivery "y" "q") (delivery "z" "q" ∷ delivery "a" "p" ∷ []) (
        take_up "q" (delivery "x" "q") (
          put_queue (delivery "x" "q") (
            fetch (delivery "x" "q") (delivery "y" "q" ∷ delivery "z" "q" ∷ delivery "a" "p" ∷ [])
              (started crowd))))))

crowded_reached : Reach "p" crowd crowded
unfolding program
crowded_reached =
    goes_on
      (goes_on
        (goes_on
          (goes_on (goes_on (goes_on begins (fetches _ _ refl refl)) (puts _ refl refl))
            (takes "q" _ refl refl))
          (fetches _ _ refl refl))
        (puts _ refl refl))
      (fetches _ _ refl refl)

-- then its partition is taken away
abbrev lost : Partitions
lost = revoke "q" crowded

lost_stuck : lost.dispatcher ≡ stuck (delivery "z" "q")
unfolding program
lost_stuck = refl

lost_idle : (lost.current "p" ≡ none) × (lost.source ≡ delivery "a" "p" ∷ [])
unfolding program
lost_idle = (refl, refl)

-- the dispatcher stays there
still_stuck : (revoke "q" lost).dispatcher ≡ stuck (delivery "z" "q")
unfolding program
still_stuck = refl
