-- ===== src/Roip/Buffers.antt =====
-- roip.c: who has the receive buffers, round after round.
use roip.Prelude.{ℕ, List, [], ◌++◌}
use roip.Emac.{Chip}
use roip.Emac.Rx.Accounts.{buffers, accepted, released}
use roip.Voice.{Codec}
use roip.Roip.{Main}
use roip.Roip.Sound.{Sound}
use roip.Roip.Rounds.{Rounds, before, frames, samples, turn}

module _ (codec : Codec) (c : Chip) where
  -- The buffers that lwIP accepts in the rounds, and those that the driver frees.
  unfoldable pub taken :
      {i t n i' t' n' : ℕ} {m m' : Main codec} → Rounds codec c i t n m i' t' n' m' → List ℕ
  taken before = []
  taken (frames written four more) = taken more
  taken (samples drs more) = taken more
  taken
        (turn stack r heap1 e1 in_calls n1 k e2 tx_calls n2 m1 actions here polled handled few
          within consumed reclaimed timed given went more) =
      accepted r.input_ok in_calls ++ taken more

  unfoldable pub given_back :
      {i t n i' t' n' : ℕ} {m m' : Main codec} → Rounds codec c i t n m i' t' n' m' → List ℕ
  given_back before = []
  given_back (frames written four more) = given_back more
  given_back (samples drs more) = given_back more
  given_back
        (turn stack r heap1 e1 in_calls n1 k e2 tx_calls n2 m1 actions here polled handled few
          within consumed reclaimed timed given went more) =
      released in_calls ++ given_back more

  -- The buffers in the ring and in the memory.
  abbrev pub held : Main codec → List ℕ
  held m = buffers m.apps.enet.rxb ++ buffers m.heap
