-- ===== src/Emac/Tx/Leak.antt =====
-- lwip/src/arch/lpc17xx_40xx_emac.c: frames that are sent faster than the main loop reclaims them.
use roip.Prelude.{
  ℕ, suc, ◌+◌, ◌%◌, ◌≤◌, ◌≡◌, refl, ap, subst, ◌∙◌, List, [], ◌∷◌, ◌++◌, map, append-nil,
  append_assoc, arith, true, Option, none, some, length, length-append, Result, ok, ◌>>=◌,
}
use roip.Emac.{Desc, Enet, Chip, Laws}
use roip.Emac.Tx.{Seg, dma_safe, wait_ready, low_level_output, tx_reclaim}
use roip.Emac.Tx.Pending.{Pending}
use roip.Emac.Tx.Output.{entries, descs, frame_queued}
use roip.Emac.Tx.Reclaim.{full_round_kept}

-- A frame of one buffer, and what the driver reads while it waits for a descriptor.
pub record Frame : Type 0 where
  pub id : ℕ
  pub seg : Seg
  pub polls : List ℕ

-- Calls of `lpc_low_level_output` one after the other. `none`: one of them still waits.
unfoldable pub send_frames : Chip → ℕ → List Frame → Enet → Result (Option (Enet × ℕ))
unfolding low_level_output
send_frames c idx [] e = ok (some (e, idx))
send_frames c idx (f ∷ fs) e =
    low_level_output c idx f.polls (record { id = f.id; segs = f.seg ∷ [] }) e >>= λ r. elim r [
      | none ↦ ok none
      | some (e', idx', calls) ↦ send_frames c idx' fs e'
    ]

-- The controller can reach each buffer, and has consumed enough of the ring each time.
abbrev pub Goes : Chip → ℕ → List Frame → Type 0
Goes c idx [] = Unit {0}
Goes c idx (f ∷ fs) =
    (dma_safe (f.seg ∷ []) ≡ true) × (wait_ready c 1 idx f.polls ≡ true) × Goes c ((idx + 1) % 4) fs

abbrev pub ids : List Frame → List (Option ℕ)
ids fs = map (λ (f : Frame). some f.id) fs

abbrev pub frame_descs : Chip → List Frame → List Desc
frame_descs c [] = []
frame_descs c (f ∷ fs) = descs c (f.seg ∷ []) ++ frame_descs c fs

length-ids : (fs : List Frame) → length (ids fs) ≡ length fs
length-ids [] = refl
length-ids (f ∷ fs) = ap suc (length-ids fs)

module _ (c : Chip) (laws : Laws c) (i : ℕ) where
  send_frames-Pending :
      (fs : List Frame) (es : List (Option ℕ)) (ds : List Desc) (e : Enet)
      → Pending i es ds e
      → length es + length fs ≤ 4
      → Goes c ((i + length es) % 4) fs
      → (e' : Enet) × (send_frames c ((i + length es) % 4) fs e
          ≡ ok (some (e', (i + length es + length fs) % 4)))
        × Pending i (es ++ ids fs) (ds ++ frame_descs c fs) e'
  unfolding send_frames
  send_frames-Pending [] es ds e h few g =
      (e, ap (λ n. ok (some (e, n))) (omega arith), rw (append-nil es, append-nil ds) h)
  send_frames-Pending (f ∷ fs) es ds e h few (safe, ready, g) =
      let (e1, r, h1) =
        frame_queued c laws i f.id f.polls (f.seg ∷ []) es ds e h (omega arith) safe ready in
      let wide = length-append es (entries f.id (f.seg ∷ [])) in
      let at : (i + length es + 1) % 4 ≡ (i + length (es ++ entries f.id (f.seg ∷ []))) % 4 =
        omega (arith, wide) in
      let then_at : ((i + length es) % 4 + 1) % 4
          ≡ (i + length (es ++ entries f.id (f.seg ∷ []))) % 4 =
        omega (arith, wide) in
      let (e', r', h') =
        send_frames-Pending fs (es ++ entries f.id (f.seg ∷ [])) (ds ++ descs c (f.seg ∷ [])) e1 h1
          (omega (arith, wide)) (subst (λ n. Goes c n fs) then_at g) in
      (
        e',
        rw r (
            ap (λ n. send_frames c n fs e1) at
            ∙ (r' ∙ ap (λ n. ok (some (e', n))) (omega (arith, wide)))),
        rw
            (
              ← append_assoc es (entries f.id (f.seg ∷ [])) (ids fs),
              ← append_assoc ds (descs c (f.seg ∷ [])) (frame_descs c fs),
            )
            h',
      )

  -- Four frames of one buffer each, which the controller sends at once, fill the ring of the driver:
  -- its index is back where the first began, so the call that should free the four buffers frees none
  -- and leaves the ring as it is, with all four still in it.
  pub four_frames_kept :
      (fs : List Frame) (e : Enet)
      → Pending i [] [] e
      → length fs ≡ 4
      → Goes c ((i + 0) % 4) fs
      → (e' : Enet) × (idx : ℕ) × (send_frames c ((i + 0) % 4) fs e ≡ ok (some (e', idx)))
        × Pending i (ids fs) (frame_descs c fs) e'
        × (tx_reclaim idx e' ≡ ok (e', []))
  four_frames_kept fs e h four g =
      let (e', r, h') = send_frames-Pending fs [] [] e h (omega (arith, four)) g in
      let at : (i + 0 + length fs) % 4 ≡ (i + length (ids fs)) % 4 = omega (arith, length-ids fs) in
      (
        e',
        (i + length (ids fs)) % 4,
        r ∙ ap (λ n. ok (some (e', n))) at,
        h',
        full_round_kept i (ids fs) (frame_descs c fs) e' h' (length-ids fs ∙ four),
      )
