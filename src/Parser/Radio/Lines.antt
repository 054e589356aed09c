-- ===== src/Parser/Radio/Lines.antt =====
-- apps/parser.c: what `radio_comm` does with one whole line.
use roip.Prelude.{
  ℕ, zero, suc, ◌+◌, ◌-◌, ◌≤◌, ◌<◌, ◌≡◌, refl, sym, ◌∙◌, ap, Bool, true, false, ◌||◌, none, some,
  List, [], ◌∷◌, ◌++◌, arith, u32, ◌==◌, if◌then◌else◌, length, length-append, get_elem?,
  get_elem?-append, drop, drop-drop, take, take-append_length, take-all, slice, write_at,
  write_at-zero, write_at-append, length-write_at, memcpy, memcpy-ok, memcpy-fault, length-drop,
  dec_lt, ok, fault, out_of_bounds, ◌>>=◌,
}
use roip.Net.{Answers, NetCall}
use roip.Spudp.{Spudp}
use roip.Spudp.Spec.{IsState, address, peer, view}
use roip.Spudp.Link.{exchange, string_send_lem}
use roip.Parser.Radio.{
  Radio, Message, line_break, other, classify, copy_value, Scan, act, scan, receive, ends_line,
  radio_comm,
}

-- Bytes none of which is the `+` that begins each message.
abbrev pub IsQuiet : List ℕ → Type 0
IsQuiet [] = Unit
IsQuiet (x ∷ xs) = ((x == b'+') ≡ false) × IsQuiet xs

classify-quiet :
    (x : ℕ) (xs : List ℕ)
    → (x == b'+') ≡ false
    → classify (x ∷ xs) ≡ ok (if x == 13 || x == 10 then line_break else other)
unfolding classify
classify-quiet x xs h = ground arith

-- A byte that begins no message is passed over.
act-quiet :
    (n : ℕ) (s : Scan) (b : Bool)
    → act (if b then line_break else other) n s ≡ ok (record s { c = u32 (s.c + 1) })
unfolding act
act-quiet n s true = refl
act-quiet n s false = refl

pub scan-step :
    (fuel n : ℕ) (s : Scan) (m : Message) (s' : Scan)
    → s.c < n
    → classify (drop s.c s.radio.buf) ≡ ok m
    → act m n s ≡ ok s'
    → scan (suc fuel) n s ≡ scan fuel n s'
unfolding scan
scan-step fuel n s m s' h k a = ground arith

scan-done : (fuel n : ℕ) (s : Scan) → n ≤ s.c → scan (suc fuel) n s ≡ ok s
unfolding scan
scan-done fuel n s h = ground arith

-- The loop passes over bytes that begin no message.
scan-quiet :
    (q junk : List ℕ) (fuel n : ℕ) (s : Scan)
    → IsQuiet q
    → drop s.c s.radio.buf ≡ q ++ junk
    → s.c + length q ≡ n
    → n < 256
    → length q < fuel
    → scan fuel n s ≡ ok (record s { c = n })
scan-quiet q junk zero n s a e l k h = absurd (omega arith)
scan-quiet [] junk (suc fuel) n s a e l k h =
    let at : s.c ≡ n = omega arith in
    scan-done fuel n s (omega arith) ∙ ap (λ c. ok (record s { c = c })) at
scan-quiet (x ∷ q) junk (suc fuel) n s a e l k h =
    let b = x == 13 || x == 10 in
    let t = record s { c = u32 (s.c + 1) } in
    let c1 : u32 (s.c + 1) ≡ s.c + 1 = omega arith in
    let at : drop t.c s.radio.buf ≡ q ++ junk =
      ap (λ c. drop c s.radio.buf) c1 ∙ drop-drop s.c 1 s.radio.buf ∙ ap (drop 1) e in
    scan-step fuel n s (if b then line_break else other) t (omega arith)
      (ap classify e ∙ classify-quiet x (q ++ junk) a.0) (act-quiet n s b)
    ∙ scan-quiet q junk fuel n t a.1 at (omega arith) k (omega arith)

-- With no line begun.
abbrev pub idle : Radio → Radio
idle r = record r { nbytes = 0 }

-- The array after a line of its own has come in.
abbrev pub with_line : List ℕ → Radio → Radio
with_line rx r = record r { buf = rx ++ drop (length rx) r.buf }

-- A line of fewer than 256 bytes.
pub record IsLine (rx : List ℕ) : Type 0 where
  pub ends : get_elem? rx (length rx - 1) ≡ some 10
  pub short : length rx < 256

abbrev pub start : List ℕ → Radio → Scan
start rx r = record {
  c = 0;
  len = none;
  radio = record (with_line rx r) { nbytes = length rx };
  hw = [];
}

pub line_pos : (rx : List ℕ) → IsLine rx → 0 < length rx
line_pos [] l = cc l.ends
line_pos (x ∷ rx) l = omega arith

pub receive-line :
    (rx : List ℕ) (r : Radio)
    → length r.buf ≡ 256
    → length rx ≤ 256
    → receive rx (idle r) ≡ ok (record (with_line rx r) { nbytes = length rx })
receive-line rx r w l =
    let all : take 256 rx ≡ rx = take-all 256 rx (omega arith) in
    ground (arith, all, write_at-zero r.buf rx (omega arith))

pub ends_line-line :
    (rx : List ℕ) (r : Radio)
    → 0 < length rx
    → get_elem? rx (length rx - 1) ≡ some 10
    → ends_line (record (with_line rx r) { nbytes = length rx }) ≡ ok true
ends_line-line rx r p e =
    ground (arith, get_elem?-append rx (drop (length rx) r.buf) (length rx - 1) e)

module _ (ans : Answers) (d : Spudp) (r : Radio) (v : IsState d.st) (g : ans.pbuf_given ≡ true)
    (w : length r.buf ≡ 256) where
  abbrev pub report : List ℕ → List NetCall
  report rx = exchange (address d (peer (view d.st))) rx

  pub radio_comm-line :
      (rx : List ℕ)
      → IsLine rx
      → radio_comm ans rx d (idle r) ≡ (
          scan (suc (length rx)) (length rx) (start rx r) >>= λ s.
          ok (record s.radio { nbytes = 0 }, s.hw, report rx))
  unfolding radio_comm
  radio_comm-line rx l =
      let junk = drop (length rx) r.buf in
      rw (
        receive-line rx r w (omega (arith, l.short)),
        ends_line-line rx r (line_pos rx l) l.ends,
        take-append_length rx junk,
        string_send_lem ans rx d v g (line_pos rx l) l.short,
      )

  -- A line that begins with a message and holds no other: the message is acted on once, and the
  -- line is passed on to the server.
  pub message-line :
      (rx q junk : List ℕ) (m : Message) (s : Scan)
      → IsLine rx
      → classify (rx ++ drop (length rx) r.buf) ≡ ok m
      → act m (length rx) (start rx r) ≡ ok s
      → IsQuiet q
      → drop s.c s.radio.buf ≡ q ++ junk
      → s.c + length q ≡ length rx
      → 0 < s.c
      → radio_comm ans rx d (idle r) ≡ ok (record s.radio { nbytes = 0 }, s.hw, report rx)
  message-line rx q junk m s l k a quiet e n p = rw (
    radio_comm-line rx l,
    scan-step (length rx) (length rx) (start rx r) m s (line_pos rx l) k a,
    scan-quiet q junk (length rx) (length rx) s quiet e n l.short (omega arith),
  )

  -- A line in which no message begins is passed on and changes nothing else.
  pub quiet_line :
      (rx : List ℕ)
      → IsLine rx
      → IsQuiet rx
      → radio_comm ans rx d (idle r) ≡ ok (idle (with_line rx r), [], report rx)
  quiet_line rx l q = rw (
    radio_comm-line rx l,
    scan-quiet rx (drop (length rx) r.buf) (suc (length rx)) (length rx) (start rx r) q refl
        (omega arith) l.short (omega arith),
  )

pub copy_value-field :
    (at dst : List ℕ) (s : ℕ) (f : List ℕ)
    → slice s (length f) at ≡ f
    → s + length f ≤ length at
    → length f < length dst
    → copy_value at (some s) (some (length f)) dst ≡ ok (f ++ (0 ∷ drop (length f + 1) dst))
unfolding copy_value
copy_value-field at dst s f e h k =
    let full = f ++ drop (length f) dst in
    let fits : length f + 1 ≤ length full =
      omega (arith, length-append f (drop (length f) dst), length-drop (length f) dst) in
    let last : write_at full (length f) (0 ∷ []) ≡ f ++ (0 ∷ drop (length f + 1) dst) =
      write_at-append f (drop (length f) dst) (0 ∷ [])
      ∙ ap (λ t. f ++ t)
          (write_at-zero (drop (length f) dst) (0 ∷ []) (omega (arith, length-drop (length f) dst)))
      ∙ ap (λ t. f ++ (0 ∷ t)) (sym (drop-drop (length f) 1 dst)) in
    ground (
      arith,
      e,
      ap (λ b. memcpy dst 0 b) e,
      memcpy-ok dst 0 f (omega arith),
      write_at-zero dst f (omega arith),
      ap (λ b. memcpy b (length f) (0 ∷ [])) (write_at-zero dst f (omega arith)),
      memcpy-ok full (length f) (0 ∷ []) fits,
      last,
    )

pub copy_value-too_long :
    (at dst : List ℕ) (s : ℕ) (f : List ℕ)
    → slice s (length f) at ≡ f
    → length dst ≤ length f
    → copy_value at (some s) (some (length f)) dst ≡ fault out_of_bounds
unfolding copy_value
copy_value-too_long at dst s f e k = elim (dec_lt (length dst) (length f)) [
  | yes longer ↦ rw (e, memcpy-fault dst 0 f (omega arith)) (ground arith)
  | no same ↦
      rw
        (
          e,
          memcpy-ok dst 0 f (omega arith),
          ◌>>=◌,
          memcpy-fault (write_at dst 0 f) (length f) (0 ∷ [])
              (omega (arith, length-write_at dst 0 f)),
        )
        (ground arith)
]
