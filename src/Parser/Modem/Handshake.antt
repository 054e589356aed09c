-- ===== src/Parser/Modem/Handshake.antt =====
-- apps/parser.c: the commands that the terminal is given while it is set up.
use roip.Prelude.{
  ℕ, ◌-◌, ◌<◌, ◌≡◌, refl, sym, ◌∙◌, ap, subst, ◌⊎◌, inl, inr, Bool-cases, Result-cases,
  ok-injective, >>=-eq-ok, true, false, List, [], ◌∷◌, ◌++◌, append_assoc, arith, length, take,
  take-all, drop, write_at, map, Bool, strncmp_eq, codes, ok, fault, out_of_bounds, ◌>>=◌,
}
use roip.Parser.{
  SerialState, noinit, cmd1_sent, cmd2_sent, cmd3_sent, cmd4_sent, cmd5_sent, active_wait,
  is_starting,
}
use roip.Parser.Modem.{
  Reply, Modem, str1, str2, str3, str4, str5, ok_text, send_command, next_command, answer, round,
  rounds, begin,
}

-- An answer that ends in OK and a line break.
abbrev pub okay : List ℕ → List ℕ
okay pre = pre ++ (codes "OK" ++ (13 ∷ 10 ∷ []))

-- The commands that have been handed to `serial_send` since the last restart.
abbrev pub script : SerialState → List (List ℕ)
script cmd1_sent = str1 ∷ []
script cmd2_sent = str1 ∷ str2 ∷ []
script cmd3_sent = str1 ∷ str2 ∷ str3 ∷ []
script cmd4_sent = str1 ∷ str2 ∷ str3 ∷ str4 ∷ []
script cmd5_sent = str1 ∷ str2 ∷ str3 ∷ str4 ∷ str5 ∷ []
script active_wait = str1 ∷ str2 ∷ str3 ∷ str4 ∷ str5 ∷ []
script _ = []

abbrev pub commands : Modem → List (List ℕ)
commands m = map (λ h. h.0) m.handed

abbrev pub Follows : Modem → Type 0
Follows m = (earlier : List (List ℕ)) × (commands m ≡ earlier ++ script m.ser)

map-snoc :
    (hs : List (List ℕ × Bool)) (s : List ℕ) (room : Bool)
    → map (λ h. h.0) (hs ++ ((s, room) ∷ [])) ≡ map (λ h. h.0) hs ++ (s ∷ [])
map-snoc [] s room = refl
map-snoc (h ∷ hs) s room = ap (λ t. h.0 ∷ t) (map-snoc hs s room)

commands-send_command :
    (s : List ℕ) (next : SerialState) (room : Bool) (m : Modem)
    → commands (send_command s next room m) ≡ commands m ++ (s ∷ [])
commands-send_command s next room m = map-snoc m.handed s room

next-Follows :
    (s : SerialState) (room : Bool) (m : Modem)
    → m.ser ≡ s
    → Follows m
    → Follows (next_command s room m)
next-Follows noinit room m e f = f
next-Follows cmd1_sent room m e (p, q) = (
  p,
  commands-send_command str2 cmd2_sent room m
      ∙ ap (λ t. t ++ (str2 ∷ [])) (q ∙ ap (λ t. p ++ script t) e)
      ∙ append_assoc p _ _,
)
next-Follows cmd2_sent room m e (p, q) = (
  p,
  commands-send_command str3 cmd3_sent room m
      ∙ ap (λ t. t ++ (str3 ∷ [])) (q ∙ ap (λ t. p ++ script t) e)
      ∙ append_assoc p _ _,
)
next-Follows cmd3_sent room m e (p, q) = (
  p,
  commands-send_command str4 cmd4_sent room m
      ∙ ap (λ t. t ++ (str4 ∷ [])) (q ∙ ap (λ t. p ++ script t) e)
      ∙ append_assoc p _ _,
)
next-Follows cmd4_sent room m e (p, q) = (
  p,
  commands-send_command str5 cmd5_sent room m
      ∙ ap (λ t. t ++ (str5 ∷ [])) (q ∙ ap (λ t. p ++ script t) e)
      ∙ append_assoc p _ _,
)
next-Follows cmd5_sent room m e (p, q) = (p, q ∙ ap (λ t. p ++ script t) e)
next-Follows active_wait room m e f = f
next-Follows _ room m e f = f

-- The buffer after a read.
abbrev pub filled : List ℕ → Modem → Modem
filled got m = record m { serial_buffer = write_at m.serial_buffer 0 got }

-- A round does nothing, goes on, or starts again.
answer_cases :
    (got : List ℕ) (room : Bool) (m : Modem) {m' : Modem}
    → answer got room m ≡ ok m'
    → (filled got m ≡ m')
      ⊎ ((next_command m.ser room (filled got m) ≡ m')
          ⊎ (send_command str1 cmd1_sent room (filled got m) ≡ m'))
unfolding answer
answer_cases got room m e =
    elim (Result-cases
      (strncmp_eq (drop (length got - 4) (write_at m.serial_buffer 0 got)) ok_text 4)) [
        | inl (true, p) ↦ ground (arith, p)
        | inl (false, p) ↦ ground (arith, p)
        | inr (x, p) ↦ ground (arith, p)
      ]

round-Follows : (r : Reply) (m : Modem) {m' : Modem} → round r m ≡ ok m' → Follows m → Follows m'
unfolding round
round-Follows r m e f =
    let got = take 256 r.rx in
    elim (answer_cases got r.room m e) [
      | inl p ↦ subst Follows p f
      | inr (inl p) ↦ subst Follows p (next-Follows m.ser r.room (filled got m) refl f)
      | inr (inr p) ↦
          subst Follows p (commands m, commands-send_command str1 cmd1_sent r.room (filled got m))
    ]

pub rounds-going :
    (r : Reply) (rs : List Reply) (m : Modem)
    → is_starting m.ser ≡ true
    → rounds (r ∷ rs) m ≡ (round r m >>= λ m'. rounds rs m')
unfolding rounds
rounds-going r rs m s = ground arith

pub rounds-done : (rs : List Reply) (m : Modem) → is_starting m.ser ≡ false → rounds rs m ≡ ok m
unfolding rounds
rounds-done [] m s = refl
rounds-done (r ∷ rs) m s = ground arith

pub rounds-nil : (m : Modem) → rounds [] m ≡ ok m
unfolding rounds
rounds-nil m = refl

rounds-Follows :
    (rs : List Reply) (m : Modem) {m' : Modem} → rounds rs m ≡ ok m' → Follows m → Follows m'
rounds-Follows [] m e f = subst Follows (ok-injective (sym (rounds-nil m) ∙ e)) f
rounds-Follows (r ∷ rs) m e f = elim (Bool-cases (is_starting m.ser)) [
  | inl going ↦
      let (m1, p, q) = >>=-eq-ok (round r m) (rounds rs) (sym (rounds-going r rs m going) ∙ e) in
      rounds-Follows rs m1 q (round-Follows r m p f)
  | inr done ↦ subst Follows (ok-injective (sym (rounds-done (r ∷ rs) m done) ∙ e)) f
]

-- However the terminal answers, if the set-up ends then the last five commands that were handed to
-- `serial_send` are the five settings, in order. Whether it had room for them is not looked at, so this
-- does not say that they were sent.
pub set_up_complete :
    (rs : List Reply) (garbage : List ℕ) {m : Modem}
    → rounds rs (begin garbage) ≡ ok m
    → m.ser ≡ active_wait
    → (earlier : List (List ℕ)) × (commands m ≡ earlier ++ (str1 ∷ str2 ∷ str3 ∷ str4 ∷ str5 ∷ []))
set_up_complete rs garbage {m} e a =
    let (p, q) = rounds-Follows rs (begin garbage) e ([], refl) in
    (p, q ∙ ap (λ s. p ++ script s) a)

abbrev pub good_reply : List ℕ → Reply
good_reply pre = record { rx = okay pre; room = true }

abbrev after : List ℕ → Modem → Modem
after pre m = next_command m.ser true (filled (okay pre) m)

short_answer_lem :
    (got : List ℕ) (room : Bool) (m : Modem)
    → 0 < length got
    → length got < 4
    → answer got room m ≡ fault out_of_bounds
unfolding answer
short_answer_lem got room m h k = ground arith

-- An answer of one to three bytes makes the code read in front of its buffer.
pub short_answer :
    (r : Reply) (m : Modem) → 0 < length r.rx → length r.rx < 4 → round r m ≡ fault out_of_bounds
unfolding round
short_answer r m h k = rw (take-all 256 r.rx (omega arith)) (short_answer_lem r.rx r.room m h k)
