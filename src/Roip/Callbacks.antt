-- ===== src/Roip/Callbacks.antt =====
-- roip.c: what lwIP may do to the program's state while `main` calls it.
use roip.Prelude.{
  ℕ, ◌+◌, ◌%◌, ◌≤◌, ◌≡◌, refl, ◌∙◌, true, List, Option, some, ok, length, length-append, ◌++◌,
  arith,
}
use roip.Spudp.{handle_control}
use roip.Spudp.Spec.{IsState}
use roip.Spudp.Failover.{handle_control-IsState}
use roip.Httpd.{Http, Site, http_recv}
use roip.Httpd.Buffer.{length-http_recv}
use roip.Httpd.Replies.{HttpCall}
use roip.Emac.{Pbuf, Desc, Enet, EnetCall, Chip, Laws}
use roip.Emac.Sides.{rx_side, Holds-rx_side}
use roip.Emac.Rx.Queue.{Holds}
use roip.Emac.Tx.{Seg, dma_safe, wait_ready, low_level_output}
use roip.Emac.Tx.Pending.{Pending}
use roip.Emac.Tx.Output.{entries, descs}
use roip.Emac.Tx.Apart.{low_level_output-rx_side}
use roip.Emac.Tx.Traffic.{length-entries, send_step}
use roip.Roip.{Apps}

-- lwIP calls the receiver of the control packets, the web server and the driver's output, any number of
-- times. The transmit ring, whose next descriptor to be reclaimed is `t`, has `n` entries before that.
-- A frame that is sent finds room behind them. The web server reads a whole sector's buffer.
pub data Callbacks (c : Chip) : ℕ → ℕ → Apps → ℕ → Apps → Type 0 where
  returned : {t n : ℕ} {a : Apps} → Callbacks c t n a n a
  control :
      {t n n' : ℕ} {a a' : Apps} (addr now : ℕ)
      → Callbacks c t n (record a { spudp = (handle_control addr now a.spudp).0 }) n' a'
      → Callbacks c t n a n' a'
  served :
      {t n n' : ℕ} {a a' : Apps} (site : Site) (packet : Option (ℕ × List ℕ)) (s : Http)
      (calls : List HttpCall)
      → length site.flash ≡ 256
      → http_recv site packet a.http ≡ ok (s, calls)
      → Callbacks c t n (record a { http = s }) n' a'
      → Callbacks c t n a n' a'
  output :
      {t n n' : ℕ} {a a' : Apps} (p : ℕ) (polls : List ℕ) (segs : List Seg) (e : Enet) (idx : ℕ)
      (calls : List EnetCall)
      → n + length segs ≤ 4
      → dma_safe segs ≡ true
      → wait_ready c (length segs) ((t + n) % 4) polls ≡ true
      → low_level_output c ((t + n) % 4) polls (record { id = p; segs = segs }) a.enet
        ≡ ok (some (e, idx, calls))
      → Callbacks c t (n + length segs) (record a { enet = e }) n' a'
      → Callbacks c t n a n' a'

-- The two rings are well formed, the receive ring from the descriptor `i` on and the transmit ring with
-- `n` entries from `t` on, the connection is in one of its states, and the buffer for the settings has
-- its size.
pub record Steady (c : Chip) (i t n : ℕ) (a : Apps) : Type 0 where
  pub queue : List Pbuf
  pub holds : Holds c i queue a.enet
  pub waiting : List (Option ℕ)
  pub descriptors : List Desc
  pub pending : Pending t waiting descriptors a.enet
  pub level : length waiting ≡ n
  pub link : IsState a.spudp.st
  pub buffer : length a.http.flash_buff ≡ 256

module _ (c : Chip) (laws : Laws c) (i t : ℕ) where
  -- The callbacks keep this.
  pub Callbacks-Steady :
      (n n' : ℕ) (a a' : Apps) → Steady c i t n a → Callbacks c t n a n' a' → Steady c i t n' a'
  Callbacks-Steady n n' a a' s returned = s
  Callbacks-Steady n n' a a' s (control addr now more) =
      let s1 : Steady c i t n (record a { spudp = (handle_control addr now a.spudp).0 }) = record {
        queue = s.queue;
        holds = s.holds;
        waiting = s.waiting;
        descriptors = s.descriptors;
        pending = s.pending;
        level = s.level;
        link = handle_control-IsState addr now a.spudp s.link;
        buffer = s.buffer;
      } in
      Callbacks-Steady n n' _ a' s1 more
  Callbacks-Steady n n' a a' s (served site packet h calls sector went more) =
      let s1 : Steady c i t n (record a { http = h }) = record {
        queue = s.queue;
        holds = s.holds;
        waiting = s.waiting;
        descriptors = s.descriptors;
        pending = s.pending;
        level = s.level;
        link = s.link;
        buffer = length-http_recv site packet a.http h calls sector s.buffer went;
      } in
      Callbacks-Steady n n' _ a' s1 more
  Callbacks-Steady n n' a a' s (output p polls segs e idx calls room safe ready went more) =
      let s1 : Steady c i t (n + length segs) (record a { enet = e }) = record {
        queue = s.queue;
        holds =
            Holds-rx_side c i s.queue a.enet e
              (low_level_output-rx_side c ((t + n) % 4) polls (record { id = p; segs = segs })
                a.enet e idx calls ready went)
              s.holds;
        waiting = s.waiting ++ entries p segs;
        descriptors = s.descriptors ++ descs c segs;
        pending =
            send_step c laws t n p idx a.enet e s.waiting s.descriptors polls segs calls s.pending
              s.level room safe ready went;
        level =
            omega (arith, s.level, length-append s.waiting (entries p segs), length-entries p segs);
        link = s.link;
        buffer = s.buffer;
      } in
      Callbacks-Steady (n + length segs) n' _ a' s1 more

-- They only add to the transmit ring.
pub Callbacks-grow : {c : Chip} {t n n' : ℕ} {a a' : Apps} → Callbacks c t n a n' a' → n ≤ n'
Callbacks-grow returned = omega arith
Callbacks-grow (control addr now more) = Callbacks-grow more
Callbacks-grow (served site packet h calls sector went more) = Callbacks-grow more
Callbacks-grow (output p polls segs e idx calls room safe ready went more) =
    let rest = Callbacks-grow more in omega (arith, rest)

-- Nor do they touch the receive ring.
pub Callbacks-rx_side :
    (c : Chip) (t n n' : ℕ) (a a' : Apps)
    → Callbacks c t n a n' a'
    → rx_side a'.enet ≡ rx_side a.enet
Callbacks-rx_side c t n n' a a' returned = refl
Callbacks-rx_side c t n n' a a' (control addr now more) = Callbacks-rx_side c t n n' _ a' more
Callbacks-rx_side c t n n' a a' (served site packet h calls sector went more) =
    Callbacks-rx_side c t n n' _ a' more
Callbacks-rx_side c t n n' a a' (output p polls segs e idx calls room safe ready went more) =
    Callbacks-rx_side c t (n + length segs) n' _ a' more
    ∙ low_level_output-rx_side c ((t + n) % 4) polls (record { id = p; segs = segs }) a.enet e idx
        calls ready went
