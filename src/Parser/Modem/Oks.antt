-- ===== src/Parser/Modem/Oks.antt =====
-- apps/parser.c: what the terminal has answered when it is set up.
use roip.Prelude.{
  ℕ, zero, suc, ◌-◌, ◌≤◌, ◌≡◌, refl, sym, ◌∙◌, ap, subst, inl, inr, Bool-cases, Result-cases, Bool,
  dec_lt, ok-injective, >>=-eq-ok, true, false, List, [], ◌∷◌, ◌++◌, append_assoc, arith, length,
  length-append, take, length-take, take-append-drop, drop, drop-append_length, write_at,
  write_at-zero, length-write_at, strncmp_eq, codes, ok, ◌⊎◌,
}
use roip.Parser.{
  SerialState, noinit, cmd1_sent, cmd2_sent, cmd3_sent, cmd4_sent, cmd5_sent, active_wait,
  is_starting,
}
use roip.Parser.Modem.{
  Reply, Modem, str1, str2, str3, str4, str5, ok_text, send_command, next_command, answer, round,
  rounds, begin,
}
use roip.Parser.Modem.Handshake.{okay, filled, rounds-going, rounds-done, rounds-nil}

-- Four bytes that compare equal to the text.
four-okay :
    (xs junk : List ℕ)
    → length xs ≡ 4
    → strncmp_eq (xs ++ junk) ok_text 4 ≡ ok true
    → xs ≡ codes "OK" ++ (13 ∷ 10 ∷ [])
unfolding strncmp_eq
four-okay [] junk n e = absurd (omega (arith, n))
four-okay (a ∷ []) junk n e = absurd (omega (arith, n))
four-okay (a ∷ b ∷ []) junk n e = absurd (omega (arith, n))
four-okay (a ∷ b ∷ c ∷ []) junk n e = absurd (omega (arith, n))
four-okay (a ∷ b ∷ c ∷ d ∷ []) junk n e = ground (arith, e)
four-okay (a ∷ b ∷ c ∷ d ∷ x ∷ xs) junk n e = absurd (omega (arith, n))

-- The answer that the code takes for an OK ends in one.
okay_only :
    (got buf : List ℕ)
    → length got ≤ length buf
    → 4 ≤ length got
    → strncmp_eq (drop (length got - 4) (write_at buf 0 got)) ok_text 4 ≡ ok true
    → (pre : List ℕ) × (got ≡ okay pre)
okay_only got buf fits long e =
    let k = length got - 4 in
    let pre = take k got in
    let four = drop k got in
    let junk = drop (length got) buf in
    let parts : pre ++ four ≡ got = take-append-drop k got in
    let n : length pre ≡ k = omega (arith, length-take k got, long) in
    let m : length four ≡ 4 =
      omega (arith, n, long, sym (length-append pre four) ∙ ap length parts) in
    let found : drop k (write_at buf 0 got) ≡ four ++ junk =
      ap (drop k) (
        write_at-zero buf got fits ∙ ap (λ xs. xs ++ junk) (sym parts) ∙ append_assoc pre four junk)
      ∙ ap (λ j. drop j (pre ++ (four ++ junk))) (sym n)
      ∙ drop-append_length pre (four ++ junk) in
    let same : four ≡ codes "OK" ++ (13 ∷ 10 ∷ []) =
      four-okay four junk m (subst (λ xs. strncmp_eq xs ok_text 4 ≡ ok true) found e) in
    (pre, sym parts ∙ ap (λ xs. pre ++ xs) same)

abbrev IsOkay : Reply → Type 0
IsOkay r = (pre : List ℕ) × (take 256 r.rx ≡ okay pre)

-- A round does nothing, goes on after an OK, or starts again.
round_cases :
    (r : Reply) (m : Modem) {m' : Modem}
    → length m.serial_buffer ≡ 256
    → round r m ≡ ok m'
    → (filled (take 256 r.rx) m ≡ m')
      ⊎ ((IsOkay r × (next_command m.ser r.room (filled (take 256 r.rx) m) ≡ m'))
          ⊎ (send_command str1 cmd1_sent r.room (filled (take 256 r.rx) m) ≡ m'))
unfolding round answer
round_cases r m {m'} w e =
    let got = take 256 r.rx in
    elim (dec_lt (length got) 4) [
      | yes short ↦ ground arith
      | no long ↦
          elim (Result-cases
            (strncmp_eq (drop (length got - 4) (write_at m.serial_buffer 0 got)) ok_text 4)) [
              | inl (true, p) ↦
                  let go_on : next_command m.ser r.room (filled got m) ≡ m' = ground (arith, p) in
                  let okay_got =
                    okay_only got m.serial_buffer (omega (arith, w, length-take 256 r.rx))
                      (omega (arith, long)) p in
                  inr (inl (okay_got, go_on))
              | inl (false, p) ↦ ground (arith, p)
              | inr (x, p) ↦ ground (arith, p)
            ]
    ]

-- How many more answers have to be OK in a state.
abbrev lacking : SerialState → ℕ
lacking cmd2_sent = 4
lacking cmd3_sent = 3
lacking cmd4_sent = 2
lacking cmd5_sent = 1
lacking active_wait = 0
lacking _ = 5

-- At least so many of the answers end in an OK and a line break, as far as they are read.
pub data Oks : ℕ → List Reply → Type 0 where
  enough : {rs : List Reply} → Oks 0 rs
  other : {n : ℕ} (r : Reply) {rs : List Reply} → Oks n rs → Oks n (r ∷ rs)
  okay_next : {n : ℕ} (r : Reply) {rs : List Reply} → IsOkay r → Oks n rs → Oks (suc n) (r ∷ rs)

Oks-fewer : {n : ℕ} {rs : List Reply} → Oks n rs → (k : ℕ) → k ≤ n → Oks k rs
Oks-fewer enough zero h = enough
Oks-fewer enough (suc k) h = absurd (omega (arith, h))
Oks-fewer (other r os) k h = other r (Oks-fewer os k h)
Oks-fewer (okay_next r o os) zero h = enough
Oks-fewer (okay_next r o os) (suc k) h = okay_next r o (Oks-fewer os k (omega (arith, h)))

lacking_le : (s : SerialState) → lacking s ≤ 5
lacking_le s = ground arith

-- After an OK at most one fewer is lacking than before.
Oks-next :
    (s : SerialState) (r : Reply) (rs : List Reply) (m : Modem)
    → m.ser ≡ s
    → is_starting s ≡ true
    → IsOkay r
    → Oks (lacking (next_command s r.room m).ser) rs
    → Oks (lacking s) (r ∷ rs)
Oks-next noinit r rs m e going o os = other r (subst (λ s. Oks (lacking s) rs) e os)
Oks-next cmd1_sent r rs m e going o os = okay_next r o os
Oks-next cmd2_sent r rs m e going o os = okay_next r o os
Oks-next cmd3_sent r rs m e going o os = okay_next r o os
Oks-next cmd4_sent r rs m e going o os = okay_next r o os
Oks-next cmd5_sent r rs m e going o os = okay_next r o os
Oks-next _ r rs m e going o os = absurd (cc)

next_command-buffer :
    (s : SerialState) (room : Bool) (m : Modem)
    → length (next_command s room m).serial_buffer ≡ length m.serial_buffer
next_command-buffer cmd1_sent room m = length-write_at m.serial_buffer 0 str2
next_command-buffer cmd2_sent room m = length-write_at m.serial_buffer 0 str3
next_command-buffer cmd3_sent room m = length-write_at m.serial_buffer 0 str4
next_command-buffer cmd4_sent room m = length-write_at m.serial_buffer 0 str5
next_command-buffer _ room m = refl

rounds-Oks :
    (rs : List Reply) (m : Modem) {m' : Modem}
    → length m.serial_buffer ≡ 256
    → rounds rs m ≡ ok m'
    → m'.ser ≡ active_wait
    → Oks (lacking m.ser) rs
rounds-Oks [] m w e a =
    subst (λ s. Oks (lacking s) [])
      (sym (ap (λ x. x.ser) (ok-injective (sym (rounds-nil m) ∙ e)) ∙ a)) enough
rounds-Oks (r ∷ rs) m {m'} w e a = elim (Bool-cases (is_starting m.ser)) [
  | inr done ↦
      let same = ok-injective (sym (rounds-done (r ∷ rs) m done) ∙ e) in
      subst (λ s. Oks (lacking s) (r ∷ rs)) (sym (ap (λ x. x.ser) same ∙ a)) enough
  | inl going ↦
      let (m1, p, q) = >>=-eq-ok (round r m) (rounds rs) (sym (rounds-going r rs m going) ∙ e) in
      let got = take 256 r.rx in
      let wide = length-write_at m.serial_buffer 0 got ∙ w in
      elim (round_cases r m w p) [
        | inl same ↦
            let os = rounds-Oks rs m1 (subst (λ x. length x.serial_buffer ≡ 256) same wide) q a in
            other r (subst (λ x. Oks (lacking x.ser) rs) (sym same) os)
        | inr (inl (o, same)) ↦
            let os =
              rounds-Oks rs m1
                (subst (λ x. length x.serial_buffer ≡ 256) same
                  (next_command-buffer m.ser r.room (filled got m) ∙ wide))
                q a in
            Oks-next m.ser r rs (filled got m) refl going o
              (subst (λ x. Oks (lacking x.ser) rs) (sym same) os)
        | inr (inr same) ↦
            let os =
              rounds-Oks rs m1
                (subst (λ x. length x.serial_buffer ≡ 256) same
                  (length-write_at (write_at m.serial_buffer 0 got) 0 str1 ∙ wide))
                q a in
            other r (
              Oks-fewer (subst (λ x. Oks (lacking x.ser) rs) (sym same) os) (lacking m.ser)
                (lacking_le m.ser))
      ]
]

-- If the set-up ends, at least five of the answers, as far as a round reads them, ended in an OK and a
-- line break.
pub five_oks :
    (rs : List Reply) (garbage : List ℕ) {m : Modem}
    → length garbage ≡ 256
    → rounds rs (begin garbage) ≡ ok m
    → m.ser ≡ active_wait
    → Oks 5 rs
five_oks rs garbage w e a = rounds-Oks rs (begin garbage) (length-write_at garbage 0 str1 ∙ w) e a
