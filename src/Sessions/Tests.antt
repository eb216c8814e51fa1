-- ===== src/Sessions/Tests.antt =====
-- The session service over the in-memory store, with a hash that adds 1000.
use ai_cybersecurity_soc_ana.Common.{
  List, [], arith, false, none, refl, some, true, ℕ, ◌+◌, ◌∷◌, ◌≡◌, ◌≢◌,
}
use ai_cybersecurity_soc_ana.Common.Dict.{erase, erase_if, insert, lookup}
use ai_cybersecurity_soc_ana.Sessions.Records.{LoginTransaction, RefreshRecord, SessionRecord}
use ai_cybersecurity_soc_ana.Sessions.InMemory.{
  InMemorySessionStore, empty, in_memory, pop_login, pop_login_once, save_login,
}
use ai_cybersecurity_soc_ana.Sessions.Outcomes.{done, invalid_token, raised, refresh_reuse}
use ai_cybersecurity_soc_ana.Sessions.Service.{revoke, rotate, start_session}
use ai_cybersecurity_soc_ana.Sessions.Rotation.{IsRotatable}
use ai_cybersecurity_soc_ana.Sessions.Invariant.{IsValid}
use ai_cybersecurity_soc_ana.Sessions.Family.{
  Call, logout, perform, perform_all, perform_all-IsValid, rotation, start, start_then_rotate,
  theft_ends_session,
}

abbrev hash : ℕ → ℕ
hash token = token + 1000

program : Unit {0}
unfolding start_session rotate revoke perform perform_all lookup insert erase erase_if
program = tt

-- Session 1 of user 9 at time 0 with token 5, for 100 ticks.
abbrev session : SessionRecord
session = record { session_id = 1; user_id = 9; created_at = 0; expires_at = 100 }

abbrev token_5 : RefreshRecord
token_5 = record { token_hash = 1005; session_id = 1; user_id = 9; expires_at = 100; used = false }

abbrev started : InMemorySessionStore
started = record { sessions = (1, session) ∷ []; refresh = (1005, token_5) ∷ []; logins = [] }

starts : start_session in_memory hash 100 0 1 5 9 empty ≡ (started, session, 5)
unfolding program
starts = refl

rotates : (rotate in_memory hash 100 10 6 5 started).1 ≡ done (session, 6)
unfolding program
rotates = refl

expired_is_invalid : rotate in_memory hash 100 100 6 5 started ≡ (started, raised invalid_token)
unfolding program
expired_is_invalid = refl

empty-IsValid : IsValid in_memory hash 100 empty
unfolding program
empty-IsValid = record {
  sound = tt;
  filed = λ h r e. cc;
  single = λ h k r q e f _ _ _. cc;
  owned = λ h r x e f. cc;
}

abbrev calls : List Call
calls = start 0 1 5 9 ∷ rotation 10 6 5 ∷ rotation 20 7 6 ∷ logout 1 ∷ []

perform_all-IsValid_example :
    IsValid in_memory hash 100 (perform_all in_memory hash 100 calls empty)
unfolding program
perform_all-IsValid_example =
    perform_all-IsValid in_memory hash 100 calls empty empty-IsValid
      ((λ h r e. cc), (tt, (tt, (tt, tt))))

started-IsValid : IsValid in_memory hash 100 started
unfolding program
started-IsValid =
    perform_all-IsValid in_memory hash 100 (start 0 1 5 9 ∷ []) empty empty-IsValid
      ((λ h r e. cc), tt)

can_rotate : IsRotatable in_memory hash 100 10 5 token_5 session started
unfolding program
can_rotate = record {
  known = refl;
  unexpired = omega arith;
  unused = refl;
  alive = refl;
  session_unexpired = omega arith;
}

abbrev replayed : InMemorySessionStore
replayed = record started { refresh = (1005, record token_5 { used = true }) ∷ [] }

start_then_rotate_example :
    let (s', x, t) = start_session in_memory hash 100 0 1 5 9 empty in
    (rotate in_memory hash 100 99 6 t s').1 ≡ done (x, 6)
start_then_rotate_example = start_then_rotate in_memory hash 100 0 1 5 9 99 6 empty (omega arith)

theft_ends_session_example :
    let s₁ = (rotate in_memory hash 100 10 6 5 started).0 in
    let (s₂, outcome) = rotate in_memory hash 100 11 7 5 s₁ in
    (outcome ≡ raised refresh_reuse)
    × (in_memory.load_session 1 s₂ ≡ none)
    × ((t f : ℕ) → rotate in_memory hash 100 t f 6 s₂ ≡ (s₂, raised invalid_token))
theft_ends_session_example =
    theft_ends_session in_memory hash 100 10 11 6 7 5 token_5 session started started-IsValid
      can_rotate (omega arith) (omega arith)

login : LoginTransaction
login = record { login_state = 3; nonce = 4; code_verifier = 5; expires_at = 6 }

pop_login_once_instance :
    let (s', found) = pop_login login.login_state (save_login login empty) in
    (found ≡ some login)
    × ((pop_login login.login_state s').1 ≡ none)
    × (8 ≢ login.login_state → (pop_login 8 s').1 ≡ (pop_login 8 empty).1)
pop_login_once_instance = pop_login_once login 8 empty
