-- ===== src/Access/Tests.antt =====
-- Requests of two clients, at most two a minute.
use ai_cybersecurity_soc_ana.Access.Limit.{passed_lem}
use ai_cybersecurity_soc_ana.Access.RateLimit.{Request, asked, passed}
use ai_cybersecurity_soc_ana.Common.{List, [], arith, min, refl, ◌∷◌, ◌≡◌}

abbrev requests : List Request
requests = (1, 5) ∷ (1, 6) ∷ (2, 7) ∷ (1, 8) ∷ (1, 61) ∷ []

passed_lem_example : passed 2 60 1 0 [] requests ≡ min 2 (asked 60 1 0 requests)
passed_lem_example = passed_lem 2 60 1 0 requests (omega arith)

let_through_two : passed 2 60 1 0 [] requests ≡ 2
unfolding passed
let_through_two = refl

asked_thrice : asked 60 1 0 requests ≡ 3
unfolding asked
asked_thrice = refl
