-- ===== src/Effector/Dedup/Table.antt =====
-- The records of `InMemoryDedupStore` in effector/dedup.py, and the dictionary that holds them.
use beam_agents.Base.{
  ℤ, String, false, Option, none, some, List, [], ◌∷◌, ◌≡◌, refl, str_eq, if◌then◌else◌, eq_refl,
  eq_iff, arith, Bool-cases, inl, inr, ap,
}
use beam_agents.Wire.{Bytes}

-- the value tags
pub data Tag : Type 0 where
  tag_claim tag_done : Tag

-- `_Record`
pub record Record : Type 0 where
  pub tag : Tag
  pub payload : Bytes
  pub expires_at_ms : ℤ

abbrev pub Records : Type 0
Records = List (String × Record)

-- `records.get(k)`
unfoldable pub get : String → Records → Option Record
get k [] = none
get k ((j, r) ∷ rs) = if str_eq j k then some r else get k rs

-- `del records[k]`, where the key is held at most once
unfoldable pub del : String → Records → Records
del k [] = []
del k ((j, r) ∷ rs) = let rest = del k rs in if str_eq j k then rest else (j, r) ∷ rest

-- `records[k] = r`
unfoldable pub put : String → Record → Records → Records
unfolding del
put k r rs = (k, r) ∷ del k rs

pub get-put : (k : String) (r : Record) (rs : Records) → get k (put k r rs) ≡ some r
unfolding get put
get-put k r rs = rw (eq_refl k) refl

pub get-del : (k : String) (rs : Records) → get k (del k rs) ≡ none
unfolding get del
get-del k [] = refl
get-del k ((j, r) ∷ rs) = ground (arith, get-del k rs)

pub get-del-other : (k l : String) (rs : Records) → str_eq l k ≡ false → get k (del l rs) ≡ get k rs
unfolding get del
get-del-other k l [] off = refl
get-del-other k l ((j, r) ∷ rs) off = elim (Bool-cases (str_eq j l)) [
  | inl same ↦
      let j=l : j ≡ l = (eq_iff j l).0 same in
      let miss : str_eq j k ≡ false = rw j=l off in rw (same, miss) (get-del-other k l rs off)
  | inr other ↦ rw other (ap (λ o. if str_eq j k then some r else o) (get-del-other k l rs off))
]

pub get-put-other :
    (k l : String) (r : Record) (rs : Records) → str_eq l k ≡ false → get k (put l r rs) ≡ get k rs
unfolding get put
get-put-other k l r rs off = rw off (get-del-other k l rs off)
