-- ===== src/Httpd/Session.antt =====
-- apps/httpd.c: what a visitor may do.
use roip.Prelude.{ℕ, ◌≡◌, true, List, [], ◌∷◌, ok}
use roip.Httpd.Replies.{HttpCall, write_flash}
use roip.Httpd.{pass_sent, Http, Site, password_of, right_password}

-- The buffers that are written to the flash memory.
abbrev pub writes : List HttpCall → List (List ℕ)
writes [] = []
writes (write_flash fd ∷ cs) = fd ∷ writes cs
writes (_ ∷ cs) = writes cs

module _ (site : Site) (end : ℕ) (rq : List ℕ) (s : Http) (locked : s.st ≡ pass_sent → ⊥) where
  -- Nothing is changed, and the state is the privileged one only with the right password.
  abbrev Harmless : Http × List HttpCall → Type 0
  Harmless (s', calls) =
      (writes calls ≡ [])
      × (s'.sysreset_req ≡ s.sysreset_req)
      × (s'.st ≡ pass_sent → right_password (password_of site.flash) end rq ≡ ok true)
