-- ===== src/Resilience/Cache/Tests.antt =====
-- Runs of the cache: two entries at most, alive for ten ticks.
use ai_cybersecurity_soc_ana.Common.{[], arith, none, refl, some, ℕ, ◌∷◌, ◌≡◌}
use ai_cybersecurity_soc_ana.Common.Dict.{erase, insert, lookup}
use ai_cybersecurity_soc_ana.Resilience.Cache.{
  TtlCache, evict, get, get_stale, init, move_to_end, set,
}
use ai_cybersecurity_soc_ana.Resilience.Cache.Laws.{IsValid}
use ai_cybersecurity_soc_ana.Resilience.Cache.Recency.{read_outlives_writes, set_all}

program : Unit {0}
unfolding init get get_stale set move_to_end evict lookup insert erase
program = tt

abbrev two : TtlCache ℕ
two = record {
  ttl = 10;
  max_entries = 2;
  entries =
      (1, record { value = 11; expires_at = 15 })
      ∷ (2, record { value = 22; expires_at = 16 })
      ∷ [];
}

fills : set 6 2 22 (set 5 1 11 (init 10 2)) ≡ two
unfolding program
fills = refl

read_renews : get_stale 2 (set 8 3 33 (get 7 1 two).0) ≡ none
unfolding program
read_renews = refl

expires : (get 15 1 two).1 ≡ none
unfolding program
expires = refl

two-IsValid : IsValid two
unfolding lookup
two-IsValid = record { distinct = (refl, (refl, tt)); bounded = omega arith }

read_outlives_writes_example : get_stale 1 (set_all ((8, 3, 33) ∷ []) (get 7 1 two).0) ≡ some 11
read_outlives_writes_example =
    read_outlives_writes 7 1 two ((8, 3, 33) ∷ []) (unfold program in refl) (ground arith, tt)
      (omega arith)
