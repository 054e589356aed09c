-- ===== src/Parser/Radio/Pieces.antt =====
-- apps/parser.c: a line that comes in pieces.
use roip.Prelude.{
  ℕ, zero, suc, ◌+◌, ◌-◌, ◌≤◌, ◌<◌, ◌≡◌, refl, ◌∙◌, ap, false, List, [], ◌∷◌, ◌++◌, arith, ltb,
  ◌==◌, lt→ltb, some, get_elem?, length, length-append, length-write_at, take, take-all, write_at,
  memcpy-ok, Result, ok, fault, assertion, ◌>>=◌,
}
use roip.Hardware.{HwCall}
use roip.Net.{Answers, NetCall}
use roip.Spudp.{Spudp}
use roip.Parser.Radio.{Radio, receive, ends_line, radio_comm}

write_at-write_at :
    (xs : List ℕ) (i j : ℕ) (bs cs : List ℕ)
    → j ≡ i + length bs
    → write_at (write_at xs i bs) j cs ≡ write_at xs i (bs ++ cs)
write_at-write_at [] i j bs cs e = refl
write_at-write_at (x ∷ xs) zero zero [] cs e = refl
write_at-write_at (x ∷ xs) zero (suc j) [] cs e = absurd (omega (arith, e))
write_at-write_at (x ∷ xs) zero zero (b ∷ bs) cs e = absurd (omega (arith, e))
write_at-write_at (x ∷ xs) zero (suc j) (b ∷ bs) cs e =
    ap (λ r. b ∷ r) (write_at-write_at xs zero j bs cs (omega (arith, e)))
write_at-write_at (x ∷ xs) (suc i) zero bs cs e = absurd (omega (arith, e))
write_at-write_at (x ∷ xs) (suc i) (suc j) bs cs e =
    ap (λ r. x ∷ r) (write_at-write_at xs i j bs cs (omega (arith, e)))

-- The byte at the end of what was written is the last that was written.
get_elem?-write_at :
    (xs : List ℕ) (i j : ℕ) (bs : List ℕ) (b : ℕ)
    → j ≡ i + length bs
    → j < length xs
    → get_elem? (write_at xs i (bs ++ (b ∷ []))) j ≡ some b
get_elem?-write_at [] i j bs b e h = absurd (omega (arith, h))
get_elem?-write_at (x ∷ xs) zero zero [] b e h = refl
get_elem?-write_at (x ∷ xs) zero (suc j) [] b e h = absurd (omega (arith, e))
get_elem?-write_at (x ∷ xs) zero zero (c ∷ bs) b e h = absurd (omega (arith, e))
get_elem?-write_at (x ∷ xs) zero (suc j) (c ∷ bs) b e h =
    get_elem?-write_at xs zero j bs b (omega (arith, e)) (omega (arith, h))
get_elem?-write_at (x ∷ xs) (suc i) zero bs b e h = absurd (omega (arith, e))
get_elem?-write_at (x ∷ xs) (suc i) (suc j) bs b e h =
    get_elem?-write_at xs i j bs b (omega (arith, e)) (omega (arith, h))

-- The line with the bytes `rx` behind what it has.
abbrev pub with_piece : List ℕ → Radio → Radio
with_piece rx r = record r { buf = write_at r.buf r.nbytes rx; nbytes = r.nbytes + length rx }

receive-piece :
    (rx : List ℕ) (r : Radio)
    → length r.buf ≡ 256
    → r.nbytes < 256
    → r.nbytes + length rx ≤ 256
    → receive rx r ≡ ok (with_piece rx r)
receive-piece rx r w room fits =
    let all : take (256 - r.nbytes) rx ≡ rx = take-all (256 - r.nbytes) rx (omega arith) in
    let free : ltb 0 (256 - r.nbytes) ≡ _ = lt→ltb 0 (256 - r.nbytes) (omega arith) in
    rw (free, all, memcpy-ok r.buf r.nbytes rx (omega (arith, w))) refl

-- Bytes of which the last does not end a line.
pub record IsPiece (rx : List ℕ) : Type 0 where
  pub front : List ℕ
  pub last : ℕ
  pub parts : rx ≡ front ++ (last ∷ [])
  pub open_end : (last == 10) ≡ false

module _ (r : Radio) (w : length r.buf ≡ 256) (room : r.nbytes < 256) where
  with_piece-append : (rx ry : List ℕ) → with_piece ry (with_piece rx r) ≡ with_piece (rx ++ ry) r
  with_piece-append rx ry =
      let buf = write_at-write_at r.buf r.nbytes (r.nbytes + length rx) rx ry refl in
      let n : r.nbytes + length rx + length ry ≡ r.nbytes + length (rx ++ ry) =
        omega (arith, length-append rx ry) in
      ap (λ b. record r { buf = b; nbytes = r.nbytes + length rx + length ry }) buf
      ∙ ap (λ m. record r { buf = write_at r.buf r.nbytes (rx ++ ry); nbytes = m }) n

  ends_line-piece :
      (rx : List ℕ)
      → IsPiece rx
      → r.nbytes + length rx ≤ 256
      → ends_line (with_piece rx r) ≡ ok false
  ends_line-piece rx p fits =
      let long : length rx ≡ length p.front + 1 =
        ap length p.parts ∙ length-append p.front (p.last ∷ []) in
      let nonempty : ((r.nbytes + length rx) == 0) ≡ false = ground (arith, long) in
      let at_end : r.nbytes + length rx - 1 ≡ r.nbytes + length p.front = omega (arith, long) in
      let found : get_elem? (write_at r.buf r.nbytes rx) (r.nbytes + length rx - 1) ≡ some p.last =
        ap (λ x. get_elem? (write_at r.buf r.nbytes x) (r.nbytes + length rx - 1)) p.parts
        ∙ get_elem?-write_at r.buf r.nbytes (r.nbytes + length rx - 1) p.front p.last at_end
            (omega (arith, w, long)) in
      rw (nonempty, found) (ap ok p.open_end)

  -- The bytes are kept, and nothing else happens.
  radio_comm-piece :
      (ans : Answers) (d : Spudp) (rx : List ℕ)
      → IsPiece rx
      → r.nbytes + length rx ≤ 256
      → radio_comm ans rx d r ≡ ok (with_piece rx r, [], [])
  unfolding radio_comm
  radio_comm-piece ans d rx p fits =
      rw (receive-piece rx r w room fits, ends_line-piece rx p fits) refl

  -- What comes next is treated as if it had come with them.
  radio_comm-append :
      (ans : Answers) (d : Spudp) (rx ry : List ℕ)
      → r.nbytes + length (rx ++ ry) < 256
      → radio_comm ans ry d (with_piece rx r) ≡ radio_comm ans (rx ++ ry) d r
  unfolding radio_comm
  radio_comm-append ans d rx ry fits =
      let many = length-append rx ry in
      let wide = length-write_at r.buf r.nbytes rx ∙ w in
      let apart : receive ry (with_piece rx r) ≡ ok (with_piece (rx ++ ry) r) =
        receive-piece ry (with_piece rx r) wide (omega (arith, many)) (omega (arith, many))
        ∙ ap ok (with_piece-append rx ry) in
      rw (apart, receive-piece (rx ++ ry) r w room (omega arith)) refl

abbrev pub ArePieces : List (List ℕ) → Type 0
ArePieces [] = Unit {0}
ArePieces (p ∷ ps) = IsPiece p × ArePieces ps

abbrev pub joined : List (List ℕ) → List ℕ → List ℕ
joined [] rx = rx
joined (p ∷ ps) rx = p ++ joined ps rx

-- One call of `radio_comm` for each piece, and one for the end, with the calls that each of them makes.
unfoldable pub in_turn :
    Answers → Spudp → List (List ℕ) → List ℕ → Radio → Result (Radio × List HwCall × List NetCall)
in_turn ans d [] rx r = radio_comm ans rx d r
in_turn ans d (p ∷ ps) rx r = do
  (r1, hw1, net1) ← radio_comm ans p d r
  (r2, hw2, net2) ← in_turn ans d ps rx r1
  ok (r2, hw1 ++ hw2, net1 ++ net2)

all-of-it :
    (x : Result (Radio × List HwCall × List NetCall))
    → (x >>= λ t. ok (t.0, [] ++ t.1, [] ++ t.2)) ≡ x
all-of-it (ok t) = refl
all-of-it (fault e) = refl

in_turn-piece :
    (ans : Answers) (d : Spudp) (p : List ℕ) (ps : List (List ℕ)) (rx : List ℕ) (r : Radio)
    → length r.buf ≡ 256
    → IsPiece p
    → r.nbytes + length p ≤ 256
    → r.nbytes < 256
    → in_turn ans d (p ∷ ps) rx r ≡ in_turn ans d ps rx (with_piece p r)
unfolding in_turn
in_turn-piece ans d p ps rx r w piece fits room =
    rw (radio_comm-piece r w room ans d p piece fits)
      (all-of-it (in_turn ans d ps rx (with_piece p r)))

-- It makes no difference to `radio_comm` how a line is cut into pieces by the rounds in which its bytes
-- come in: calls with the pieces one after the other, none of which but the last ends in a line feed,
-- come to the same state and make the same calls of the hardware and of the network, all together, as
-- one call with the whole, or fault as it does. The line must be shorter than its buffer.
pub pieces_joined :
    (ans : Answers) (d : Spudp) (ps : List (List ℕ)) (rx : List ℕ) (r : Radio)
    → length r.buf ≡ 256
    → ArePieces ps
    → r.nbytes + length (joined ps rx) < 256
    → in_turn ans d ps rx r ≡ radio_comm ans (joined ps rx) d r
unfolding in_turn
pieces_joined ans d [] rx r w pieces fits = refl
pieces_joined ans d (p ∷ ps) rx r w (piece, pieces) fits =
    let many = length-append p (joined ps rx) in
    let room : r.nbytes < 256 = omega (arith, fits) in
    in_turn-piece ans d p ps rx r w piece (omega (arith, fits, many)) room
    ∙ pieces_joined ans d ps rx (with_piece p r) (length-write_at r.buf r.nbytes p ∙ w) pieces
        (omega (arith, fits, many))
    ∙ radio_comm-append r w room ans d p (joined ps rx) fits

radio_comm-full :
    (ans : Answers) (rx : List ℕ) (d : Spudp) (r : Radio)
    → r.nbytes ≡ 256
    → radio_comm ans rx d r ≡ fault assertion
unfolding radio_comm
radio_comm-full ans rx d r e = ground arith

-- Pieces that fill the 256 bytes of the line's buffer, none of which ends in a line feed, make the next
-- call of `radio_comm` fail the assertion of `serial_read`, whatever it would read.
pub full_buffer :
    (ans : Answers) (d : Spudp) (ps : List (List ℕ)) (rx : List ℕ) (r : Radio)
    → length r.buf ≡ 256
    → ArePieces ps
    → r.nbytes + length (joined ps []) ≡ 256
    → in_turn ans d ps rx r ≡ fault assertion
unfolding in_turn
full_buffer ans d [] rx r w pieces fills = radio_comm-full ans rx d r (omega (arith, fills))
full_buffer ans d (p ∷ ps) rx r w (piece, pieces) fills =
    let many = length-append p (joined ps []) in
    let long : length p ≡ length piece.front + 1 =
      ap length piece.parts ∙ length-append piece.front (piece.last ∷ []) in
    in_turn-piece ans d p ps rx r w piece (omega (arith, fills, many))
      (omega (arith, fills, many, long))
    ∙ full_buffer ans d ps rx (with_piece p r) (length-write_at r.buf r.nbytes p ∙ w) pieces
        (omega (arith, fills, many))
