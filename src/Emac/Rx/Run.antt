-- ===== src/Emac/Rx/Run.antt =====
-- lwip/src/arch/lpc17xx_40xx_emac.c: the receive side over many calls of `lpc_enetif_input`.
use roip.Prelude.{
  ℕ, ◌≡◌, Bool, List, [], ◌++◌, arith, Option, length, ok, count-append, bag, bag-SameCounts,
}
use roip.Emac.{Pbuf, Stat, Enet, EnetCall, Chip}
use roip.Emac.Rx.{RxRegs, enetif_input}
use roip.Emac.Rx.Queue.{Holds}
use roip.Emac.Rx.Refill.{AreContiguous}
use roip.Emac.Rx.Accounts.{buffers, released, accepted}
use roip.Emac.Rx.Settled.{next_consume}
use roip.Emac.Rx.Balanced.{Balanced, enetif_input-Balanced}

-- Calls one after the other, each of which finds the consume index and the memory where the one before
-- left them, and none of which faults; in between, the controller writes the status of frames. The
-- lists are the buffers that lwIP accepts, and those that are freed.
pub data Polls (c : Chip)
    : ℕ → List (Option Pbuf) → Enet → List ℕ → List ℕ → ℕ → List (Option Pbuf) → Enet → Type 0 where
  rest : {i : ℕ} {heap : List (Option Pbuf)} {e : Enet} → Polls c i heap e [] [] i heap e
  frames :
      {i j : ℕ} {heap heap'' : List (Option Pbuf)} {e e'' : Enet} {taken returned : List ℕ}
      (written : List Stat)
      → length written ≡ 4
      → Polls c i heap (record e { prxs = written }) taken returned j heap'' e''
      → Polls c i heap e taken returned j heap'' e''
  poll :
      {i j : ℕ} {heap heap'' : List (Option Pbuf)} {e e'' : Enet} {taken returned : List ℕ}
      (r : RxRegs) (ethertype : Pbuf → ℕ) (input_ok : Bool) (heap' : List (Option Pbuf)) (e' : Enet)
      (calls : List EnetCall)
      → r.consume ≡ i
      → enetif_input c r ethertype input_ok heap e ≡ ok (heap', e', calls)
      → Polls c (next_consume r i) heap' e' taken returned j heap'' e''
      → Polls c i heap e
          (accepted input_ok calls ++ taken)
          (released calls ++ returned)
          j
          heap''
          e''

-- The status words are no part of the queue.
pub written-Holds :
    (c : Chip) (i : ℕ) (ps : List Pbuf) (e : Enet)
    → Holds c i ps e
    → (written : List Stat) → length written ≡ 4
    → Holds c i ps (record e { prxs = written })
written-Holds c i ps e h written four = record {
  start = h.start;
  wide_b = h.wide_b;
  wide_d = h.wide_d;
  wide_s = four;
  free = h.free;
  fill = h.fill;
  held = h.held;
  stale = h.stale;
  described = h.described;
}

Polls-Balanced :
    (c : Chip) (i j : ℕ) (ps : List Pbuf) (heap heap'' : List (Option Pbuf)) (e e'' : Enet)
    (taken returned : List ℕ)
    → Holds c i ps e
    → AreContiguous heap
    → Polls c i heap e taken returned j heap'' e''
    → Balanced c j heap heap'' e e'' taken returned
Polls-Balanced c i j ps heap heap'' e e'' taken returned h flat rest =
    (ps, h, flat, λ a. omega arith)
Polls-Balanced c i j ps heap heap'' e e'' taken returned h flat (frames written four more) =
    Polls-Balanced c i j ps heap heap'' _ e'' taken returned (written-Holds c i ps e h written four)
      flat more
Polls-Balanced c i j ps heap heap'' e e'' taken returned h flat
      (poll {taken = later} {returned = others} r ethertype input_ok heap' e' calls here went
        more) =
    let (qs, h', flat', first) =
      enetif_input-Balanced c i ps heap e h flat r ethertype input_ok heap' e' calls here went in
    let (qs', h'', flat'', then_) =
      Polls-Balanced c (next_consume r i) j qs heap' heap'' e' e'' later others h' flat' more in
    (
      qs',
      h'',
      flat'',
      λ a. omega (
        arith,
        first a,
        then_ a,
        count-append a (accepted input_ok calls) later,
        count-append a (released calls) others,
      ),
    )

-- Over any calls of `lpc_enetif_input` that do not fault, with frames of any type and status, errors,
-- refusals of memory, refusals of lwIP and overruns in any order, the receive ring stays well formed:
-- from the consume index on it holds a queue of buffers with their descriptors, and the counter and the
-- fill index agree with the queue. And no buffer is lost or used twice: up to their order, those that
-- the ring had and that the memory had to give are those that the ring has now, that the memory still
-- has to give, that lwIP accepted, and that were freed. The controller must go on where it was, and
-- the buffers to be given must not be chained.
pub buffers_conserved :
    (c : Chip) (i j : ℕ) (ps : List Pbuf) (heap heap' : List (Option Pbuf)) (e e' : Enet)
    (taken returned : List ℕ)
    → Holds c i ps e
    → AreContiguous heap
    → Polls c i heap e taken returned j heap' e'
    → (qs : List Pbuf) × Holds c j qs e'
      × (bag (buffers e.rxb ++ buffers heap)
          ≡ bag (buffers e'.rxb ++ buffers heap' ++ taken ++ returned))
buffers_conserved c i j ps heap heap' e e' taken returned h flat polls =
    let (qs, h', flat', same) =
      Polls-Balanced c i j ps heap heap' e e' taken returned h flat polls in
    (
      qs,
      h',
      bag-SameCounts (λ a. omega (
        arith,
        same a,
        count-append a (buffers e.rxb) (buffers heap),
        count-append a (buffers e'.rxb ++ buffers heap' ++ taken) returned,
        count-append a (buffers e'.rxb ++ buffers heap') taken,
        count-append a (buffers e'.rxb) (buffers heap'),
      )),
    )
