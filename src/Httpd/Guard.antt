-- ===== src/Httpd/Guard.antt =====
-- apps/httpd.c: the test of the state in front of the requests that need the password.
use roip.Prelude.{◌≡◌, refl, ◌⊎◌, inl, inr, List, Result, arith}
use roip.Httpd.Replies.{HttpCall}
use roip.Httpd.{HttpState, Http, disconnected, pass_sent, config_changed, refuse, guarded}

pub guarded-shut :
    (s : Http) (r : Result (Http × List HttpCall)) → (s.st ≡ pass_sent → ⊥) → guarded s r ≡ refuse s
unfolding guarded
guarded-shut s r h = ground arith

pub guarded-open :
    (s : Http) (r : Result (Http × List HttpCall)) → s.st ≡ pass_sent → guarded s r ≡ r
unfolding guarded
guarded-open s r h = ground arith

pub guarded-cases :
    (s : Http) (r : Result (Http × List HttpCall)) → (guarded s r ≡ r) ⊎ (guarded s r ≡ refuse s)
guarded-cases s r = state_cases s.st refl
  where
    state_cases : (x : HttpState) → s.st ≡ x → (guarded s r ≡ r) ⊎ (guarded s r ≡ refuse s)
    state_cases disconnected e = inr (guarded-shut s r (λ o. cc))
    state_cases pass_sent e = inl (guarded-open s r e)
    state_cases config_changed e = inr (guarded-shut s r (λ o. cc))
