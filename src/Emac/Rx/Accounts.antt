-- ===== src/Emac/Rx/Accounts.antt =====
-- lwip/src/arch/lpc17xx_40xx_emac.c: who has the buffers of the receive side.
use mathlib.Core.List.{map-append}
use roip.Prelude.{
  ℕ, zero, suc, ◌+◌, ◌≡◌, refl, ap, ◌∙◌, Bool, true, false, List, [], ◌∷◌, ◌++◌, map, arith, Option,
  none, some, take, drop, take-append-drop, replicate, count, count-append,
}
use roip.Emac.{Pbuf, Enet, EnetCall, pbuf_free, netif_input, Chip}
use roip.Emac.Rx.Queue.{Holds}
use roip.Emac.Rx.Refill.{granted, left}
use roip.Emac.Rx.Restart.{frees}

abbrev pub ids : List Pbuf → List ℕ
ids ps = map (λ (p : Pbuf). p.id) ps

-- The buffers in the descriptors of a ring, or those that `pbuf_alloc` will give.
abbrev pub buffers : List (Option Pbuf) → List ℕ
buffers [] = []
buffers (none ∷ xs) = buffers xs
buffers (some p ∷ xs) = p.id ∷ buffers xs

-- The buffers that calls give back to the memory, and those that they offer to lwIP.
abbrev pub released : List EnetCall → List ℕ
released [] = []
released (pbuf_free n ∷ calls) = n ∷ released calls
released (_ ∷ calls) = released calls

abbrev pub offered : List EnetCall → List ℕ
offered [] = []
offered (netif_input p ∷ calls) = p.id ∷ offered calls
offered (_ ∷ calls) = offered calls

-- lwIP owns what is offered to it if it returns ERR_OK.
abbrev pub accepted : Bool → List EnetCall → List ℕ
accepted true calls = offered calls
accepted false calls = []

buffers-append : (xs ys : List (Option Pbuf)) → buffers (xs ++ ys) ≡ buffers xs ++ buffers ys
buffers-append [] ys = refl
buffers-append (none ∷ xs) ys = buffers-append xs ys
buffers-append (some p ∷ xs) ys = ap (λ r. p.id ∷ r) (buffers-append xs ys)

buffers-held : (ps : List Pbuf) (n : ℕ) → buffers (map some ps ++ replicate n none) ≡ ids ps
buffers-held [] zero = refl
buffers-held [] (suc n) = buffers-held [] n
buffers-held (p ∷ ps) n = ap (λ r. p.id ∷ r) (buffers-held ps n)

-- A ring has the buffers of its queue.
pub count-Holds :
    (a : ℕ) (c : Chip) (i : ℕ) (ps : List Pbuf) (e : Enet)
    → Holds c i ps e
    → count a (buffers e.rxb) ≡ count a (ids ps)
count-Holds a c i ps e h =
    let queue : count a (buffers (drop i e.rxb ++ take i e.rxb)) ≡ count a (ids ps) =
      ap (λ r. count a (buffers r)) h.held ∙ ap (count a) (buffers-held ps e.rx_free_descs) in
    let whole : count a (buffers (take i e.rxb ++ drop i e.rxb)) ≡ count a (buffers e.rxb) =
      ap (λ r. count a (buffers r)) (take-append-drop i e.rxb) in
    let b1 = ap (count a) (buffers-append (drop i e.rxb) (take i e.rxb)) in
    let b2 = ap (count a) (buffers-append (take i e.rxb) (drop i e.rxb)) in
    omega (
      arith,
      queue,
      whole,
      b1,
      b2,
      count-append a (buffers (drop i e.rxb)) (buffers (take i e.rxb)),
      count-append a (buffers (take i e.rxb)) (buffers (drop i e.rxb)),
    )

-- What is granted leaves the memory.
pub count-granted :
    (a n : ℕ) (heap : List (Option Pbuf))
    → count a (buffers heap) ≡ count a (ids (granted n heap)) + count a (buffers (left n heap))
count-granted a zero heap = omega arith
count-granted a (suc n) [] = omega arith
count-granted a (suc n) (none ∷ heap) = omega arith
count-granted a (suc n) (some p ∷ heap) = let rest = count-granted a n heap in ground (arith, rest)

pub count-ids :
    (a : ℕ) (ps qs : List Pbuf) → count a (ids (ps ++ qs)) ≡ count a (ids ps) + count a (ids qs)
count-ids a ps qs =
    ap (count a) (map-append (λ (p : Pbuf). p.id) ps qs) ∙ count-append a (ids ps) (ids qs)

pub released-append : (xs ys : List EnetCall) → released (xs ++ ys) ≡ released xs ++ released ys
released-append [] ys = refl
released-append (pbuf_free n ∷ xs) ys = ap (λ r. n ∷ r) (released-append xs ys)
released-append (_ ∷ xs) ys = released-append xs ys

pub offered-append : (xs ys : List EnetCall) → offered (xs ++ ys) ≡ offered xs ++ offered ys
offered-append [] ys = refl
offered-append (netif_input p ∷ xs) ys = ap (λ r. p.id ∷ r) (offered-append xs ys)
offered-append (_ ∷ xs) ys = offered-append xs ys

pub released-frees : (ps : List Pbuf) → released (frees ps) ≡ ids ps
released-frees [] = refl
released-frees (p ∷ ps) = ap (λ r. p.id ∷ r) (released-frees ps)

pub offered-frees : (ps : List Pbuf) → offered (frees ps) ≡ []
offered-frees [] = refl
offered-frees (p ∷ ps) = offered-frees ps
