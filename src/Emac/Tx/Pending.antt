-- ===== src/Emac/Tx/Pending.antt =====
-- lwip/src/arch/lpc17xx_40xx_emac.c: the transmit ring holds what has not been reclaimed.
use roip.Prelude.{
  ℕ, zero, suc, ◌+◌, ◌-◌, ◌%◌, ◌<◌, ◌≡◌, refl, sym, ap, ◌∙◌, List, [], ◌∷◌, ◌++◌, append_assoc,
  arith, Option, none, some, get_elem?, length, length-append, length-set, length-take, length-drop,
  set, replicate, take, drop,
}
use roip.Emac.{Desc, Enet}
use roip.Emac.Ring.{
  replicate-snoc, ring, next, ring-set, ring-next, get_elem?-ring, set-append_length,
}

-- From the descriptor `i` on, which is the next to be reclaimed, the ring has the entries `es` with the
-- descriptors `ds`, and no entry behind them.
pub record Pending (i : ℕ) (es : List (Option ℕ)) (ds : List Desc) (e : Enet) : Type 0 where
  pub start : i < 4
  pub last : e.lpc_last_tx_idx ≡ i
  pub wide_b : length e.txb ≡ 4
  pub wide_d : length e.ptxd ≡ 4
  pub level : length ds ≡ length es
  pub room : ℕ
  pub fits : length es + room ≡ 4
  pub held : ring i e.txb ≡ es ++ replicate room none
  pub stale : List Desc
  pub described : ring i e.ptxd ≡ ds ++ stale

-- A write behind a part of a ring extends the part, when it is not the whole.
ring-extend {ℓ} :
    {A : Type ℓ} (i : ℕ) (xs part rest : List A) (v : A)
    → i < 4
    → length xs ≡ 4
    → length part < 4
    → ring i xs ≡ part ++ rest
    → (y : A) × (ys : List A) × (rest ≡ y ∷ ys)
      × (ring i (set xs ((i + length part) % 4) v) ≡ (part ++ (v ∷ [])) ++ ys)
ring-extend i xs part [] v h w few e = absurd (
    omega (
      arith,
      ap length e,
      length-append (drop i xs) (take i xs),
      length-take i xs,
      length-drop i xs,
      length-append part [],
    ))
ring-extend i xs part (y ∷ ys) v h w few e = (
  y,
  ys,
  refl,
  ring-set i (length part) v xs h few w
      ∙ (ap (λ r. set r (length part) v) e
          ∙ (set-append_length part y v ys ∙ sym (append_assoc part (v ∷ []) ys))),
)

module _ (i : ℕ) (es : List (Option ℕ)) (ds : List Desc) (e : Enet) (h : Pending i es ds e)
    (few : length es < 4) (b : Option ℕ) (d : Desc) where
  abbrev pushed : Enet
  pushed = record e {
    ptxd = set e.ptxd ((i + length es) % 4) d;
    txb = set e.txb ((i + length es) % 4) b;
  }

  pub pushed-Pending : Pending i (es ++ (b ∷ [])) (ds ++ (d ∷ [])) pushed
  pushed-Pending =
      let (y, ys, p, q) =
        ring-extend i e.txb es (replicate h.room none) b h.start h.wide_b few h.held in
      let (z, zs, r, s) =
        ring-extend i e.ptxd ds h.stale d h.start h.wide_d (omega (arith, h.level)) h.described in
      record {
        start = h.start;
        last = h.last;
        wide_b = length-set e.txb _ b ∙ h.wide_b;
        wide_d = length-set e.ptxd _ d ∙ h.wide_d;
        level = omega (arith, h.level, length-append es (b ∷ []), length-append ds (d ∷ []));
        room = h.room - 1;
        fits = omega (arith, h.fits, length-append es (b ∷ []));
        held = q ∙ ap (λ r. (es ++ (b ∷ [])) ++ r) (tail_of h.room p);
        stale = zs;
        described = ap (λ n. ring i (set e.ptxd ((i + n) % 4) d)) (sym h.level) ∙ s;
      }
    where
      tail_of :
          (n : ℕ) {y : Option ℕ} {ys : List (Option ℕ)}
          → replicate n none ≡ y ∷ ys
          → ys ≡ replicate (n - 1) none
      tail_of zero q = cc
      tail_of (suc n) q = let one : suc n - 1 ≡ n = omega arith in rw one (cc)

module _ (i : ℕ) (b : Option ℕ) (es : List (Option ℕ)) (d : Desc) (ds : List Desc) (e : Enet)
    (h : Pending i (b ∷ es) (d ∷ ds) e) where
  abbrev pub popped : Enet
  popped = record e { txb = set e.txb i none; lpc_last_tx_idx = next i }

  -- Without its first entry, the ring has the others, one position further.
  pub popped-Pending : Pending (next i) es ds popped
  popped-Pending =
      let here : i ≡ (i + 0) % 4 = omega (arith, h.start) in
      let emptied =
        ap (λ n. ring i (set e.txb n none)) here
        ∙ (ring-set i 0 none e.txb h.start (omega arith) h.wide_b
            ∙ ap (λ r. set r 0 none) h.held) in
      record {
        start = omega arith;
        last = refl;
        wide_b = length-set e.txb i none ∙ h.wide_b;
        wide_d = h.wide_d;
        level = omega (arith, h.level);
        room = suc h.room;
        fits = omega (arith, h.fits);
        held =
            ring-next i (set e.txb i none) h.start (length-set e.txb i none ∙ h.wide_b) emptied
            ∙ (append_assoc es (replicate h.room none) (none ∷ [])
                ∙ ap (λ r. es ++ r) (replicate-snoc h.room none));
        stale = h.stale ++ (d ∷ []);
        described =
            ring-next i e.ptxd h.start h.wide_d h.described ∙ append_assoc ds h.stale (d ∷ []);
      }

  pub first_entry : get_elem? e.txb i ≡ some b
  first_entry = get_elem?-ring i e.txb h.start h.wide_b h.held
