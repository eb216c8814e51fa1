-- ===== src/Resilience/Cache.antt =====
-- `TtlCache` of integrations/resilience.py: a bounded cache, least recently used first, whose
-- entries expire and can still be read when stale.
pub mod Entries
pub mod Laws
pub mod Recency
mod Tests
use ai_cybersecurity_soc_ana.Common.{
  Option, [], if◌then◌else◌, leb, length, ltb, none, some, ℕ, ◌++◌, ◌+◌, ◌∷◌,
}
use ai_cybersecurity_soc_ana.Common.Dict.{Dict, erase, insert, lookup}

pub record CacheEntry {ℓ} (V : Type ℓ) : Type ℓ where
  pub value : V
  pub expires_at : ℕ

pub record TtlCache {ℓ} (V : Type ℓ) : Type ℓ where
  pub ttl : ℕ
  pub max_entries : ℕ
  pub entries : Dict (CacheEntry V)

module _ {ℓ} {V : Type ℓ} where
  pub init : ℕ → ℕ → TtlCache V
  init ttl max_entries = record { ttl = ttl; max_entries = max_entries; entries = [] }

  -- `OrderedDict.move_to_end`, which the code calls only with a key that is there.
  pub move_to_end : ℕ → Dict (CacheEntry V) → Dict (CacheEntry V)
  move_to_end key d = elim (lookup key d) [ none ↦ d | some e ↦ erase key d ++ (key, e) ∷ [] ]

  -- `while len(entries) > max_entries: entries.popitem(last=False)`
  pub evict : ℕ → Dict (CacheEntry V) → Dict (CacheEntry V)
  evict limit [] = []
  evict limit (e ∷ d) = if ltb limit (length (e ∷ d)) then evict limit d else e ∷ d

  get_entry : ℕ → ℕ → TtlCache V → Option (CacheEntry V) → TtlCache V × Option V
  get_entry now key c none = (c, none)
  get_entry now key c (some e) =
      if leb e.expires_at now
      then (c, none)
      else (record c { entries = move_to_end key c.entries }, some e.value)

  pub get : ℕ → ℕ → TtlCache V → TtlCache V × Option V
  unfolding get_entry
  get now key c = get_entry now key c (lookup key c.entries)

  pub get_stale : ℕ → TtlCache V → Option V
  get_stale key c = elim (lookup key c.entries) [ none ↦ none | some e ↦ some e.value ]

  pub set : ℕ → ℕ → V → TtlCache V → TtlCache V
  set now key v c = if leb c.ttl 0 then c else record c {
    entries =
        evict c.max_entries
          (move_to_end key (insert key (record { value = v; expires_at = now + c.ttl }) c.entries));
  }

  pub clear : TtlCache V → TtlCache V
  clear c = record c { entries = [] }
