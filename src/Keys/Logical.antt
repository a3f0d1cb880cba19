-- ===== src/Keys/Logical.antt =====
-- The logical key is read back from every physical key that sharding yields.
use beam_agents.Base.{
  ℕ, ◌%◌, ◌≤◌, ◌<◌, ◌≡◌, refl, ltb, ◌==◌, true, false, Option, none, some, [], ◌∷◌, ◌++◌, All,
  arith,
}
use beam_agents.Base.Digits.{decimal, is_digit}
use beam_agents.Base.Digits.Injective.{Avoids, decimal-digits, decimal_filled}
use beam_agents.Wire.{Bytes, AgentEnvelope}
use beam_agents.Keys.{
  shard_delimiter, physical_key, shard_index, shard_key, rpartition, all_digits, unshard_key,
  Assignment, hash, round_robin, ShardElement, hash_payload, index_key, rekeyed, process,
  accepts_count,
}

rpartition-Avoids : (ds : Bytes) → Avoids shard_delimiter ds → rpartition ds ≡ none
unfolding rpartition
rpartition-Avoids [] h = refl
rpartition-Avoids (d ∷ ds) (other, h) =
    let miss : (d == shard_delimiter) ≡ false = ground (arith, other) in
    rw (rpartition-Avoids ds h, miss) refl

rpartition_last :
    (key ds : Bytes)
    → Avoids shard_delimiter ds
    → rpartition (key ++ shard_delimiter ∷ ds) ≡ some (key, ds)
unfolding rpartition
rpartition_last [] ds h = rw (rpartition-Avoids ds h) refl
rpartition_last (b ∷ bs) ds h = rw (rpartition_last bs ds h) refl

digits_all : (ds : Bytes) → All (λ d. is_digit d ≡ true) ds → all_digits ds ≡ true
digits_all [] h = refl
digits_all (d ∷ ds) (first, h) = rw (first, digits_all ds h) refl

digits_avoid : (ds : Bytes) → All (λ d. is_digit d ≡ true) ds → Avoids shard_delimiter ds
digits_avoid [] h = tt
digits_avoid (d ∷ ds) (first, h) = (ground (arith, first), digits_avoid ds h)

-- the logical key of a physical one
unshard_key-physical_key :
    (key : Bytes) (index : ℕ) → unshard_key (physical_key key index) ≡ some key
unfolding unshard_key
unshard_key-physical_key key index =
    let digits = decimal-digits index in
    rw
      (
        rpartition_last key (decimal index) (digits_avoid (decimal index) digits),
        decimal_filled index,
        digits_all (decimal index) digits,
      )
      refl

-- what `process` yields: both keys are one physical key, whose logical key is the old one and whose
-- index is below the shard count, and the rest of the envelope is as it was
pub record IsSharded (n : ℕ) (key : Bytes) (envelope : AgentEnvelope)
    (r : Option (Bytes × AgentEnvelope)) : Type 0 where
  pub index : ℕ
  pub below : index < n
  pub yields :
      r ≡ some (physical_key key index, record envelope { entity_key = physical_key key index })
  pub back : unshard_key (physical_key key index) ≡ some key

-- For a shard count that is accepted, `process` yields one element under either assignment: its key
-- and its envelope's key are the same physical key, whose index is below the count and which
-- `unshard_key` takes back to the logical key, and the rest of the envelope is unchanged.
pub process-IsSharded :
    (self : ShardElement) (counter : ℕ) (key : Bytes) (envelope : AgentEnvelope)
    → accepts_count self.n ≡ true
    → IsSharded self.n key envelope (process self counter (key, envelope)).0
unfolding process accepts_count index_key shard_key shard_index
process-IsSharded self counter key envelope accepted = by_assignment self.assignment
  where
    positive : 1 ≤ self.n
    positive = ground (arith, accepted)

    accepted_count : ltb self.n 1 ≡ false
    accepted_count = ground (arith, accepted)

    by_assignment :
        (a : Assignment)
        → IsSharded self.n key envelope (rekeyed envelope (index_key self a counter key envelope).0)
    by_assignment round_robin = record {
      index = counter % self.n;
      below = omega (arith, positive);
      yields = refl;
      back = unshard_key-physical_key key (counter % self.n);
    }
    by_assignment hash = record {
      index = shard_index self.sha256 self.n (hash_payload self envelope);
      below = omega (arith, positive);
      yields = rw accepted_count refl;
      back =
          unshard_key-physical_key key
            (shard_index self.sha256 self.n (hash_payload self envelope));
    }
