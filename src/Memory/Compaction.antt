-- ===== src/Memory/Compaction.antt =====
-- memory/compaction.py, `DropOldestCompactor`: the default compactor.
use beam_agents.Base.{
  ℕ, ◌≤◌, ◌≡◌, refl, sym, ◌∙◌, leb, String, Bool, true, false, ◌||◌, none, List, [], ◌∷◌, contains,
  ◌⊎◌, inl, inr, is_some, Bool-cases, Option-cases, arith, if◌then◌else◌, str_eq, starts_with,
}
use beam_agents.Base.Dict.{lookup, lookup-remove, lookup-remove_other, same_key}
use beam_agents.Memory.{Entry, Memory}
use beam_agents.Memory.Calls.{
  delete, keys, size_bytes, Reply, names, number, Strategy, finish, call, run_compactor, call_with,
  key_names,
}
use beam_agents.Memory.Accounting.{IsAccounted, without, without-IsAccounted}
use beam_agents.Memory.Caps.{IsShrinking}

pub record DropOldestCompactor : Type 0 where
  pub target_bytes : ℕ
  pub protected_prefixes : List String

-- `_is_protected`
unfoldable pub any_prefix : (String → Bool) → List String → Bool
any_prefix test [] = false
any_prefix test (p ∷ ps) = test p || any_prefix test ps

abbrev pub names_of : Reply → List String
names_of (names ks) = ks
names_of _ = []

abbrev pub number_of : Reply → ℕ
number_of (number n) = n
number_of _ = 0

module _ (self : DropOldestCompactor) where
  abbrev pub is_protected : String → Bool
  is_protected k = any_prefix (starts_with k) self.protected_prefixes

  -- the loop of `compact` over the candidates
  unfoldable pub evict_oldest : List String → Strategy
  unfolding any_prefix
  evict_oldest [] = finish
  evict_oldest (k ∷ ks) =
      let rest = evict_oldest ks in
      call size_bytes (λ size.
        if leb (number_of size) self.target_bytes
        then finish
        else if is_protected k
        then rest
        else call (delete k) (λ done. rest))

  -- `compact`
  unfoldable pub compact : Strategy
  unfolding evict_oldest
  compact = call keys (λ candidates. evict_oldest (names_of candidates))

  -- what the compactor leaves of a memory
  pub record IsCompacted (before after : Memory) : Type 0 where
    pub shrunk : after.total ≤ before.total
    pub reached :
        (after.total ≤ self.target_bytes)
        ⊎ ((k : String) → is_some (lookup k after.entries) ≡ true → is_protected k ≡ true)
    pub spared :
        (k : String) → is_protected k ≡ true → lookup k after.entries ≡ lookup k before.entries

  -- every entry is a candidate or protected
  abbrev Covers : List String → Memory → Type 0
  Covers ks m =
      (k : String)
      → is_some (lookup k m.entries) ≡ true
      → (contains k ks ≡ true) ⊎ (is_protected k ≡ true)

  unchanged :
      (m : Memory)
      → (m.total ≤ self.target_bytes)
        ⊎ ((k : String) → is_some (lookup k m.entries) ≡ true → is_protected k ≡ true)
      → IsCompacted m m
  unchanged m reached = record { shrunk = omega arith; reached = reached; spared = λ k p. refl }

  Covers-kept :
      (k : String) (ks : List String) (m : Memory)
      → Covers (k ∷ ks) m
      → is_protected k ≡ true
      → Covers ks m
  Covers-kept k ks m covers kept j held = elim (covers j held) [
    | inr p ↦ inr p
    | inl e ↦ elim (Bool-cases (str_eq k j)) [
      | inl same ↦ inr (rw (sym (same_key k j same)) kept)
      | inr other ↦ inl (rw other at e)
    ]
  ]

  -- `k` is gone from the memory, whose other entries are as they were
  Covers-gone :
      (k : String) (ks : List String) (m m1 : Memory)
      → Covers (k ∷ ks) m
      → lookup k m1.entries ≡ none
      → ((j : String) → str_eq k j ≡ false → lookup j m1.entries ≡ lookup j m.entries)
      → Covers ks m1
  Covers-gone k ks m m1 covers gone rest j held = elim (Bool-cases (str_eq k j)) [
    | inl same ↦
        (let none_here : lookup j m1.entries ≡ none = rw (sym (same_key k j same)) gone in
          let clash = rw none_here at held in cc)
    | inr other ↦ elim (covers j (rw (rest j other) at held)) [
      | inr p ↦ inr p
      | inl e ↦ inl (rw other at e)
    ]
  ]

  -- an unprotected `k` was deleted first
  after_delete :
      (k : String) (e : Entry) (m after : Memory)
      → is_protected k ≡ false
      → IsCompacted (without k e m) after
      → IsCompacted m after
  after_delete k e m after free h = record {
    shrunk = omega (arith, h.shrunk);
    reached = h.reached;
    spared = λ j p. elim (Bool-cases (str_eq k j)) [
      | inl same ↦
          (let clash : is_protected k ≡ true = rw (same_key k j same) p in
            let absurdity : true ≡ false = sym clash ∙ free in cc)
      | inr other ↦ h.spared j p ∙ lookup-remove_other j k m.entries other
    ];
  }

  evict_oldest-IsCompacted :
      (ks : List String) (m : Memory)
      → IsAccounted m
      → Covers ks m
      → IsCompacted m (run_compactor (evict_oldest ks) m).1
  unfolding evict_oldest run_compactor call_with
  evict_oldest-IsCompacted [] m h covers =
      unchanged m (inr (λ k held. elim (covers k held) [ inl e ↦ cc | inr p ↦ p ]))
  evict_oldest-IsCompacted (k ∷ ks) m h covers = elim (Bool-cases (leb m.total self.target_bytes)) [
    | inl small ↦ rw (run_compactor, small) (unchanged m (inl (ground (arith, small))))
    | inr large ↦ elim (Bool-cases (is_protected k)) [
      | inl kept ↦
          rw (run_compactor, large, kept)
            (evict_oldest-IsCompacted ks m h (Covers-kept k ks m covers kept))
      | inr free ↦
          rw (run_compactor, large, free)
            (elim (Option-cases (lookup k m.entries)) [
              | inl gone ↦
                  rw gone (
                    evict_oldest-IsCompacted ks m h
                      (Covers-gone k ks m m covers gone (λ j o. refl)))
              | inr (e, held) ↦ rw held (
                  after_delete k e m _ free (
                    evict_oldest-IsCompacted ks (without k e m) (without-IsAccounted k e m held h) (
                      Covers-gone k ks m (without k e m) covers
                        (lookup-remove k m.entries h.distinct)
                        (λ j o. lookup-remove_other j k m.entries o))))
            ])
    ]
  ]

  names_cover :
      (k : String) (d : List (String × Entry))
      → is_some (lookup k d) ≡ true
      → contains k (key_names d) ≡ true
  unfolding lookup
  names_cover k [] held = cc
  names_cover k ((j, e) ∷ d) held = ground (arith, names_cover k d, held)

  -- `compact`, of a memory whose size counter is the sum over its entries: it does not let it grow,
  -- brings it to the target or deletes every unprotected entry, and leaves the protected ones as
  -- they are.
  pub compact-IsCompacted : (m : Memory) → IsAccounted m → IsCompacted m (run_compactor compact m).1
  unfolding compact run_compactor call_with
  compact-IsCompacted m h =
      evict_oldest-IsCompacted (key_names m.entries) m h
        (λ k held. inl (names_cover k m.entries held))

  -- the contract that the facade's hard cap needs
  pub compact-IsShrinking : IsShrinking compact
  compact-IsShrinking = record { shrinks = λ m h. (compact-IsCompacted m h).shrunk }
