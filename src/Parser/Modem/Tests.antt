-- ===== src/Parser/Modem/Tests.antt =====
-- The set-up of the terminal on concrete answers.
use roip.Prelude.{ℕ, true, map, ◌≡◌, refl, List, [], ◌∷◌, ◌++◌, replicate, codes, strncmp_eq, ok}
use roip.Parser.{active_wait}
use roip.Parser.Modem.{Reply, Modem, str1, str2, str3, str4, str5, rounds, begin}
use roip.Parser.Modem.Oks.{Oks, five_oks}
use roip.Parser.Modem.Handshake.{okay, commands, set_up_complete}

abbrev garbage : List ℕ
garbage = replicate 256 170

abbrev good : Reply
good = record { rx = okay []; room = true }

abbrev answers : List Reply
answers = good ∷ good ∷ good ∷ good ∷ good ∷ []

abbrev five : List (List ℕ)
five = str1 ∷ str2 ∷ str3 ∷ str4 ∷ str5 ∷ []

-- An answer that is not OK restarts the set-up.
abbrev with_error : List Reply
with_error = good ∷ record { rx = codes "ERROR" ++ (13 ∷ 10 ∷ []); room = true } ∷ answers

abbrev set_up : Modem
set_up = record {
  ser = active_wait;
  serial_buffer =
      codes "OK"
      ++ (13 ∷ 10 ∷ codes "TSP=2,2,20"
          ++ (13 ∷ 10 ∷ 10 ∷ codes ",0" ++ (13 ∷ 10 ∷ replicate 235 170)));
  handed = map (λ s. (s, true)) (str1 ∷ str2 ∷ five);
}

restart_ends : rounds with_error (begin garbage) ≡ ok set_up
unfolding rounds strncmp_eq
restart_ends = refl

set_up_complete_example : (earlier : List (List ℕ)) × (commands set_up ≡ earlier ++ five)
set_up_complete_example = set_up_complete with_error garbage restart_ends refl

five_oks_example : Oks 5 with_error
five_oks_example = five_oks with_error garbage refl restart_ends refl
