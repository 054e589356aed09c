-- ===== src/Emac/Tx/Traffic.antt =====
-- lwip/src/arch/lpc17xx_40xx_emac.c: the transmit ring over many frames is a queue.
use roip.Prelude.{
  ℕ, suc, ◌+◌, ◌-◌, ◌%◌, ◌≤◌, ◌<◌, ◌≡◌, refl, sym, ap, subst, ◌∙◌, List, [], ◌∷◌, ◌++◌, append-nil,
  append_assoc, arith, true, Option, some, length, length-append, length-take, length-drop, take,
  drop, take-append-drop, ok, ok-injective,
}
use roip.Emac.{Desc, Enet, EnetCall, Chip, Laws}
use roip.Emac.Tx.{Seg, dma_safe, wait_ready, low_level_output, tx_reclaim, freed}
use roip.Emac.Tx.Pending.{Pending}
use roip.Emac.Tx.Output.{entries, descs, frame_queued}
use roip.Emac.Tx.Reclaim.{frees, tx_reclaim-Pending}

-- From a ring that has `n` entries from `i` on: frames that are sent when there is room, and calls of
-- `lpc_tx_reclaim` after the controller has consumed up to three more entries. The lists are the
-- entries that are queued and the calls that free.
pub data Traffic (c : Chip) : ℕ → ℕ → Enet → List (Option ℕ) → List EnetCall → Enet → Type 0 where
  quiet : {i n : ℕ} {e : Enet} → Traffic c i n e [] [] e
  send :
      {i n : ℕ} {e e' : Enet} (e1 : Enet) (queued : List (Option ℕ)) {freeing : List EnetCall}
      (p : ℕ) (polls : List ℕ) (segs : List Seg) (idx : ℕ) (calls : List EnetCall)
      → n + length segs ≤ 4
      → dma_safe segs ≡ true
      → wait_ready c (length segs) ((i + n) % 4) polls ≡ true
      → low_level_output c ((i + n) % 4) polls (record { id = p; segs = segs }) e
        ≡ ok (some (e1, idx, calls))
      → Traffic c i (n + length segs) e1 queued freeing e'
      → Traffic c i n e (entries p segs ++ queued) freeing e'
  reclaim :
      {i n : ℕ} {e e' : Enet} (e1 : Enet) {queued : List (Option ℕ)} (freeing : List EnetCall)
      (k : ℕ) (calls : List EnetCall)
      → k < 4
      → k ≤ n
      → tx_reclaim ((i + k) % 4) e ≡ ok (e1, calls)
      → Traffic c ((i + k) % 4) (n - k) e1 queued freeing e'
      → Traffic c i n e queued (calls ++ freeing) e'

frees-append : (xs ys : List (Option ℕ)) → frees (xs ++ ys) ≡ frees xs ++ frees ys
frees-append [] ys = refl
frees-append (x ∷ xs) ys =
    ap (λ r. freed x ++ r) (frees-append xs ys) ∙ sym (append_assoc (freed x) (frees xs) (frees ys))

pub length-entries : (p : ℕ) (qs : List Seg) → length (entries p qs) ≡ length qs
length-entries p [] = refl
length-entries p (q ∷ qs) = ap suc (length-entries p qs)

-- One call of `lpc_tx_reclaim`, from the number of entries that it finds consumed.
pub reclaim_prefix :
    (i k : ℕ) (es : List (Option ℕ)) (ds : List Desc) (e : Enet)
    → Pending i es ds e
    → k < 4
    → k ≤ length es
    → (e' : Enet) × (tx_reclaim ((i + k) % 4) e ≡ ok (e', frees (take k es)))
      × Pending ((i + k) % 4) (drop k es) (drop k ds) e'
reclaim_prefix i k es ds e h few within =
    let whole : Pending i (take k es ++ drop k es) (take k ds ++ drop k ds) e =
      rw (take-append-drop k es, take-append-drop k ds) h in
    let wide : length (take k es) ≡ k = omega (arith, length-take k es) in
    let wide_d : length (take k ds) ≡ length (take k es) =
      omega (arith, length-take k es, length-take k ds, h.level) in
    let (e', q, h') =
      tx_reclaim-Pending i (take k es) (drop k es) (take k ds) (drop k ds) e whole wide_d
        (omega (arith, wide)) in
    (
      e',
      ap (λ n. tx_reclaim ((i + n) % 4) e) (sym wide) ∙ q,
      subst (λ n. Pending ((i + n) % 4) (drop k es) (drop k ds) e') wide h',
    )

module _ (c : Chip) (laws : Laws c) where
  pub send_step :
      (i n p idx : ℕ) (e e1 : Enet) (es : List (Option ℕ)) (ds : List Desc) (polls : List ℕ)
      (segs : List Seg) (calls : List EnetCall)
      → Pending i es ds e
      → length es ≡ n
      → n + length segs ≤ 4
      → dma_safe segs ≡ true
      → wait_ready c (length segs) ((i + n) % 4) polls ≡ true
      → low_level_output c ((i + n) % 4) polls (record { id = p; segs = segs }) e
        ≡ ok (some (e1, idx, calls))
      → Pending i (es ++ entries p segs) (ds ++ descs c segs) e1
  send_step i n p idx e e1 es ds polls segs calls h w room safe ready went =
      let at = sym w in
      let (e2, q, h2) =
        frame_queued c laws i p polls segs es ds e h (omega (arith, w, room)) safe
          (subst (λ m. wait_ready c (length segs) ((i + m) % 4) polls ≡ true) at ready) in
      let went' =
        subst
          (λ m.
            low_level_output c ((i + m) % 4) polls (record { id = p; segs = segs }) e
            ≡ ok (some (e1, idx, calls)))
          at went in
      let same : some (e2, (i + length es + length segs) % 4, _) ≡ some (e1, idx, calls) =
        ok-injective (sym q ∙ went') in
      let same_enet : e2 ≡ e1 = cc in
      subst (λ x. Pending i (es ++ entries p segs) (ds ++ descs c segs) x) same_enet h2

  -- As long as each frame that is sent finds room behind the entries of the ring, which the driver does
  -- not check, and at most three entries have been consumed since the last reclaim, the chains that are
  -- freed are, each once and in order, those that were queued, up to those that the ring still has; and
  -- the ring stays well formed. Each chain must lie where the controller can read it.
  pub traffic_is_fifo :
      (i n : ℕ) (e e' : Enet) (es : List (Option ℕ)) (ds : List Desc) (queued : List (Option ℕ))
      (freeing : List EnetCall)
      → Pending i es ds e
      → length es ≡ n
      → Traffic c i n e queued freeing e'
      → (i' : ℕ) × (es' : List (Option ℕ)) × (ds' : List Desc) × Pending i' es' ds' e'
        × (frees (es ++ queued) ≡ freeing ++ frees es')
  traffic_is_fifo i n e e' es ds queued freeing h w quiet = (i, es, ds, h, ap frees (append-nil es))
  traffic_is_fifo i n e e' es ds queued freeing h w
        (send e1 more_queued p polls segs idx calls room safe ready went more) =
      let h1 = send_step i n p idx e e1 es ds polls segs calls h w room safe ready went in
      let (i', es', ds', h', f) =
        traffic_is_fifo i (n + length segs) e1 e' (es ++ entries p segs) (ds ++ descs c segs)
          more_queued freeing h1
          (omega (arith, w, length-append es (entries p segs), length-entries p segs)) more in
      (i', es', ds', h', ap frees (sym (append_assoc es (entries p segs) more_queued)) ∙ f)
  traffic_is_fifo i n e e' es ds queued freeing h w
        (reclaim e1 more_freeing k calls few within went more) =
      let (e2, q, h2) = reclaim_prefix i k es ds e h few (omega (arith, w, within)) in
      let same : (e2, frees (take k es)) ≡ (e1, calls) = ok-injective (sym q ∙ went) in
      let h1 =
        subst (λ x. Pending ((i + k) % 4) (drop k es) (drop k ds) x)
          (ap (λ (t : Enet × List EnetCall). t.0) same) h2 in
      let (i', es', ds', h', f) =
        traffic_is_fifo ((i + k) % 4) (n - k) e1 e' (drop k es) (drop k ds) queued more_freeing h1
          (omega (arith, w, length-drop k es)) more in
      (
        i',
        es',
        ds',
        h',
        ap (λ r. frees (r ++ queued)) (sym (take-append-drop k es))
            ∙ (ap frees (append_assoc (take k es) (drop k es) queued)
                ∙ (frees-append (take k es) (drop k es ++ queued)
                    ∙ (ap (λ r. frees (take k es) ++ r) f
                        ∙ (ap (λ (t : Enet × List EnetCall). t.1 ++ (more_freeing ++ frees es'))
                              same
                            ∙ sym (append_assoc calls more_freeing (frees es')))))),
      )
