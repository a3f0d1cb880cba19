-- ===== src/Model/CacheTests.antt =====
-- The replay cache at concrete inputs.
use beam_agents.Base.{◌≡◌, refl, pos, some, [], ◌∷◌, ◌++◌, ◌+◌, length, arith}
use beam_agents.Base.Dict.{weight, lookup}
use beam_agents.Wire.{Bytes}
use beam_agents.Model.ReplayCache.{
  Codec, ReplayCache, blank_cache, get, put, new_entry, replay_cache, to_blob,
}
use beam_agents.Model.ReplayCache.Accounting.{IsAccounted}
use beam_agents.Model.ReplayCache.Bounds.{IsCompact, IsBounded, put-IsBounded}
use beam_agents.Model.ReplayCache.Hits.{Kept, get-put}
use beam_agents.Model.ReplayCache.Blob.{to_blob-replay_cache}

abbrev block : Bytes
block = 1 ∷ 2 ∷ 3 ∷ 4 ∷ 5 ∷ 6 ∷ 7 ∷ 8 ∷ []

abbrev digest : Bytes
digest = block ++ (block ++ (block ++ block))

-- 90 bytes for the key, the times and the flag
abbrev codec : Codec
codec = record {
  sha256 = λ b. digest;
  byte_size = λ p. 90 + length p.response + length p.response_digest;
}

compact : IsCompact codec (pos 100) "k"
compact = ((λ b. refl), (λ d size. omega (arith, size)))

blank-IsAccounted : IsAccounted (pos 100) (blank_cache (pos 100))
unfolding weight lookup
blank-IsAccounted = record { clock = refl; distinct = tt; responses = refl; wire = refl }

put-IsBounded_example :
    IsBounded codec
      (pos 100)
      "k"
      compact
      (new_entry codec (pos 100) "k" (1 ∷ 2 ∷ []))
      (put codec "k" (1 ∷ 2 ∷ []) (blank_cache (pos 100)))
put-IsBounded_example =
    put-IsBounded codec (pos 100) "k" compact (1 ∷ 2 ∷ []) (blank_cache (pos 100)) blank-IsAccounted

abbrev filled : ReplayCache
filled = put codec "k" (1 ∷ 2 ∷ []) (blank_cache (pos 100))

filled-IsAccounted : IsAccounted (pos 100) filled
filled-IsAccounted =
    (put-IsBounded codec (pos 100) "k" compact (1 ∷ 2 ∷ []) (blank_cache (pos 100))
      blank-IsAccounted).accounted

filled_size : (filled.response_total ≡ 2) × (filled.entries_wire_total ≡ 126)
unfolding put
filled_size = (refl, refl)

get-put_example : Kept codec (pos 100) "k" (1 ∷ 2 ∷ []) (get "k" filled).0
get-put_example =
    get-put codec (pos 100) "k" (1 ∷ 2 ∷ []) (blank_cache (pos 100)) compact blank-IsAccounted

to_blob-replay_cache_example :
    to_blob (replay_cache codec (some (to_blob filled)) (pos 500)) ≡ to_blob filled
to_blob-replay_cache_example =
    to_blob-replay_cache codec filled (pos 100) (pos 500) filled-IsAccounted
