-- ===== src/Emac/Rx/Queue.antt =====
-- lwip/src/arch/lpc17xx_40xx_emac.c: the receive ring holds a queue of buffers.
use mathlib.Core.List.{map-append}
use roip.Prelude.{
  ℕ, suc, ◌+◌, ◌-◌, ◌%◌, ◌<◌, ◌≤◌, ◌≡◌, refl, sym, ap, ◌∙◌, List, [], ◌∷◌, ◌++◌, map, append_assoc,
  arith, Option, none, some, leb, lt→ltb, if◌then◌else◌, length, length-append, length-set,
  length-take, length-drop, set, replicate, take, drop, sub32, ok,
}
use roip.Emac.{Pbuf, Desc, Enet, Chip}
use roip.Emac.Ring.{ring, ring-set, set-append_length}
use roip.Emac.Rx.{rxqueue_pbuf}

pub length-map {ℓ κ} :
    {A : Type ℓ} {B : Type κ} (f : A → B) (xs : List A) → length (map f xs) ≡ length xs
length-map f [] = refl
length-map f (x ∷ xs) = ap suc (length-map f xs)

-- The descriptor of a buffer that waits for a frame.
abbrev pub desc : Chip → Pbuf → Desc
desc c p = record { control = c.rctrl p.len; packet = p.payload }

-- From the descriptor `i` on, which is the next that the controller fills, the ring holds the buffers
-- `ps` with their descriptors, and the other descriptors have no buffer.
pub record Holds (c : Chip) (i : ℕ) (ps : List Pbuf) (e : Enet) : Type 0 where
  pub start : i < 4
  pub wide_b : length e.rxb ≡ 4
  pub wide_d : length e.prxd ≡ 4
  pub wide_s : length e.prxs ≡ 4
  pub free : length ps + e.rx_free_descs ≡ 4
  pub fill : e.rx_fill_desc_index ≡ (i + length ps) % 4
  pub held : ring i e.rxb ≡ map some ps ++ replicate e.rx_free_descs none
  pub stale : List Desc
  pub described : ring i e.prxd ≡ map (desc c) ps ++ stale

length-ring {ℓ} : {A : Type ℓ} (i : ℕ) (xs : List A) → length (ring i xs) ≡ length xs
length-ring i xs =
    omega (arith, length-append (drop i xs) (take i xs), length-take i xs, length-drop i xs)

-- A write behind the images of a list adds the image of one more.
set-map {ℓ κ} :
    {A : Type ℓ} {B : Type κ} (f : A → B) (xs : List A) (x : A) (y : B) (ys : List B)
    → set (map f xs ++ (y ∷ ys)) (length xs) (f x) ≡ map f (xs ++ (x ∷ [])) ++ ys
set-map f xs x y ys =
    ap (λ n. set (map f xs ++ (y ∷ ys)) n (f x)) (sym (length-map f xs))
    ∙ (set-append_length (map f xs) y (f x) ys
        ∙ (sym (append_assoc (map f xs) (f x ∷ []) ys)
            ∙ ap (λ r. r ++ ys) (sym (map-append f xs (x ∷ [])))))

-- A ring with room for one more has an element behind the queue.
room {ℓ} :
    {A : Type ℓ} (n : ℕ) (ys : List A)
    → n + length ys ≡ 4
    → n < 4
    → (y : A) × (zs : List A) × (ys ≡ y ∷ zs)
room n [] w h = absurd (omega (arith, w))
room n (y ∷ zs) w h = (y, zs, refl)

module _ (c : Chip) (i : ℕ) (ps : List Pbuf) (p : Pbuf) (e : Enet) (h : Holds c i ps e)
    (free : 0 < e.rx_free_descs) where
  abbrev queued : Enet
  queued = record e {
    prxd = set e.prxd e.rx_fill_desc_index (desc c p);
    prxs =
        set e.prxs e.rx_fill_desc_index
          (record { status_info = 0xFFFFFFFF; status_hash_crc = 0xFFFFFFFF });
    rxb = set e.rxb e.rx_fill_desc_index (some p);
    rx_free_descs = e.rx_free_descs - 1;
    rx_fill_desc_index = (e.rx_fill_desc_index + 1) % 4;
  }

  rxqueue_pbuf-queued : rxqueue_pbuf c (some p) e ≡ ok queued
  unfolding rxqueue_pbuf
  rxqueue_pbuf-queued =
      let small : e.rx_fill_desc_index < 4 = omega (arith, h.fill) in
      let few : e.rx_free_descs ≤ 4 = omega (arith, h.free) in
      let one_less : sub32 e.rx_free_descs 1 ≡ e.rx_free_descs - 1 = omega arith in
      let wrap : (if leb 4 (e.rx_fill_desc_index + 1) then 0 else e.rx_fill_desc_index + 1)
          ≡ (e.rx_fill_desc_index + 1) % 4 =
        ground arith in
      rw (lt→ltb e.rx_fill_desc_index 4 small, one_less, wrap) refl

  queued-held : ring i queued.rxb ≡ map some (ps ++ (p ∷ [])) ++ replicate queued.rx_free_descs none
  queued-held =
      let positive : e.rx_free_descs ≡ suc (e.rx_free_descs - 1) = omega arith in
      let one_more = ap (λ n. replicate {A = Option Pbuf} n none) positive in
      ap (λ n. ring i (set e.rxb n (some p))) h.fill
      ∙ (ring-set i (length ps) (some p) e.rxb h.start (omega (arith, h.free)) h.wide_b
          ∙ (ap (λ r. set r (length ps) (some p)) h.held
              ∙ (ap (λ r. set (map some ps ++ r) (length ps) (some p)) one_more
                  ∙ set-map some ps p none (replicate (e.rx_free_descs - 1) none))))

  queued-described : (ds : List Desc) × (ring i queued.prxd ≡ map (desc c) (ps ++ (p ∷ [])) ++ ds)
  queued-described =
      let many = length-append (map (desc c) ps) h.stale in
      let whole = length-ring i e.prxd ∙ h.wide_d in
      let (d, ds, split) =
        room (length ps) h.stale
          (omega (arith, ap length h.described, many, length-map (desc c) ps, whole))
          (omega (arith, h.free)) in
      (
        ds,
        ap (λ n. ring i (set e.prxd n (desc c p))) h.fill
            ∙ (ring-set i (length ps) (desc c p) e.prxd h.start (omega (arith, h.free)) h.wide_d
                ∙ (ap (λ r. set r (length ps) (desc c p))
                      (h.described ∙ ap (λ r. map (desc c) ps ++ r) split)
                    ∙ set-map (desc c) ps p d ds)),
      )

  queued-Holds : Holds c i (ps ++ (p ∷ [])) queued
  queued-Holds = record {
    start = h.start;
    wide_b = length-set e.rxb e.rx_fill_desc_index (some p) ∙ h.wide_b;
    wide_d = length-set e.prxd e.rx_fill_desc_index (desc c p) ∙ h.wide_d;
    wide_s = length-set e.prxs e.rx_fill_desc_index _ ∙ h.wide_s;
    free = omega (arith, h.free, length-append ps (p ∷ []));
    fill = omega (arith, h.fill, length-append ps (p ∷ []));
    held = queued-held;
    stale = queued-described.0;
    described = queued-described.1;
  }

  -- With a free descriptor, a buffer is queued behind those that wait.
  pub rxqueue_pbuf-Holds :
      (e' : Enet) × (rxqueue_pbuf c (some p) e ≡ ok e')
      × Holds c i (ps ++ (p ∷ [])) e'
      × (e'.rx_free_descs ≡ e.rx_free_descs - 1)
  rxqueue_pbuf-Holds = (queued, rxqueue_pbuf-queued, queued-Holds, refl)
