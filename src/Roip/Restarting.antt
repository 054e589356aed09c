-- ===== src/Roip/Restarting.antt =====
-- roip.c: when the reset that the web server asks for happens.
use roip.Prelude.{
  ℕ, ◌+◌, ◌<◌, ◌≡◌, refl, false, [], ◌∷◌, arith, ltb, ◌==◌, u32, sub32, if◌then◌else◌,
}
use roip.Httpd.{Http}
use roip.Roip.{system_reset, reset_actions}

due :
    (h : Http) (now t : ℕ)
    → (h.sysreset_req == 0) ≡ false
    → sub32 now h.sysreset_req ≡ t
    → reset_actions now h ≡ (if ltb 500 t then system_reset ∷ [] else [])
unfolding reset_actions
due h now t nonzero since = rw (nonzero, since) refl

-- Read `t` milliseconds after a reset was asked for at a time other than 0, the clock leads to the
-- reset when `t` is more than 500, and not before, also when the clock overflows in between.
pub reset_due :
    (h : Http) (t : ℕ)
    → 0 < h.sysreset_req
    → h.sysreset_req < 4294967296
    → t < 4294967296
    → reset_actions (u32 (h.sysreset_req + t)) h ≡ (if ltb 500 t then system_reset ∷ [] else [])
reset_due h t z w k =
    let since : sub32 (u32 (h.sysreset_req + t)) h.sysreset_req ≡ t = omega arith in
    due h (u32 (h.sysreset_req + t)) t (ground arith) since

-- A reset that is asked for when the clock shows 0 is never made.
pub reset_missed : (h : Http) (now : ℕ) → h.sysreset_req ≡ 0 → reset_actions now h ≡ []
unfolding reset_actions
reset_missed h now z = rw z refl
