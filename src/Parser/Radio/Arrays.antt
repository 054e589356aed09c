-- ===== src/Parser/Radio/Arrays.antt =====
-- apps/parser.c: the arrays of `radio_comm` keep their sizes, and the line stays within its buffer.
use roip.Prelude.{
  ℕ, zero, suc, ◌+◌, ◌-◌, ◌≤◌, ◌≡◌, ◌∙◌, Bool, true, false, ltb, leb, arith, List, [], ◌∷◌, Option,
  none, some, length, length-write_at, length-take, take, drop, slice, replicate, memcpy, u32,
  sub32, assert, ok, ◌>>=◌, Post, Post-bind, Post-if, Post-use,
}
use roip.Hardware.{HwCall}
use roip.Net.{Answers, NetCall}
use roip.Spudp
use roip.Spudp.{Spudp}
use roip.Parser.Value.{get_value}
use roip.Parser.Radio.{
  Radio, Message, line_break, incoming, established, pressed, released, ended, other, classify,
  copy_value, set_len, Scan, act, scan, receive, ends_line, radio_comm,
}

pub record IsTerminal (r : Radio) : Type 0 where
  pub wide_ssi : length r.ssi ≡ 32
  pub wide_ssi2 : length r.ssi2 ≡ 32
  pub wide_gssi : length r.gssi ≡ 32
  pub wide_buf : length r.buf ≡ 256
  pub in_buf : r.nbytes ≤ 256

abbrev Wide : ℕ → List ℕ → Type 0
Wide n xs = length xs ≡ n

memcpy-Wide :
    (xs : List ℕ) (off : ℕ) (bs : List ℕ) (n : ℕ) → Wide n xs → Post (Wide n) (memcpy xs off bs)
unfolding Post
memcpy-Wide xs off bs n w =
    Post-if (Wide n) (leb (off + length bs) (length xs)) _ _ (λ _. length-write_at xs off bs ∙ w)
      (λ _. tt)

copy_value-Wide :
    (at : List ℕ) (p l : Option ℕ) (dst : List ℕ) (n : ℕ)
    → Wide n dst
    → Post (Wide n) (copy_value at p l dst)
unfolding copy_value Post
copy_value-Wide at p none dst n w = tt
copy_value-Wide at none (some len) dst n w = tt
copy_value-Wide at (some s) (some len) dst n w =
    Post-if (Wide n) (leb (s + len) (length at)) _ _
      (λ _. Post-bind (Wide n) (memcpy dst 0 (slice s len at)) _ (λ filled p.
        memcpy-Wide filled len (0 ∷ []) n
          (Post-use (Wide n) _ (memcpy-Wide dst 0 (slice s len at) n w) p)))
      (λ _. tt)

abbrev Stays : Scan → Type 0
Stays s = IsTerminal s.radio

act-Stays : (m : Message) (n : ℕ) (s : Scan) → IsTerminal s.radio → Post Stays (act m n s)
unfolding act Post
act-Stays line_break n s h = h
act-Stays incoming n s h =
    Post-bind Stays (get_value (drop (u32 (s.c + 8)) s.radio.buf) (sub32 n (u32 (s.c + 8))) 5) _
      (λ v _. Post-bind Stays (copy_value _ v.0 (set_len v.1 s.len) s.radio.ssi) _ (λ ssi p.
        Post-bind Stays (get_value (drop (u32 (s.c + 8)) s.radio.buf) (sub32 n (u32 (s.c + 8))) 12)
          _
          (λ w _.
            Post-bind Stays (copy_value _ w.0 (set_len w.1 (set_len v.1 s.len)) s.radio.gssi) _
              (λ gssi q. record {
                wide_ssi =
                    Post-use (Wide 32) _
                      (copy_value-Wide _ v.0 (set_len v.1 s.len) s.radio.ssi 32 h.wide_ssi) p;
                wide_ssi2 = h.wide_ssi2;
                wide_gssi =
                    Post-use (Wide 32) _
                      (copy_value-Wide _ w.0 (set_len w.1 (set_len v.1 s.len)) s.radio.gssi 32
                        h.wide_gssi)
                      q;
                wide_buf = h.wide_buf;
                in_buf = h.in_buf;
              }))))
act-Stays established n s h = record {
  wide_ssi = h.wide_ssi;
  wide_ssi2 = h.wide_ssi2;
  wide_gssi = h.wide_gssi;
  wide_buf = h.wide_buf;
  in_buf = h.in_buf;
}
act-Stays pressed n s h =
    Post-bind Stays (get_value (drop (u32 (s.c + 7)) s.radio.buf) (sub32 n (u32 (s.c + 7))) 6) _
      (λ v _. Post-bind Stays (copy_value _ v.0 (set_len v.1 s.len) s.radio.ssi2) _ (λ ssi2 p.
        record {
          wide_ssi = h.wide_ssi;
          wide_ssi2 =
              Post-use (Wide 32) _
                (copy_value-Wide _ v.0 (set_len v.1 s.len) s.radio.ssi2 32 h.wide_ssi2) p;
          wide_gssi = h.wide_gssi;
          wide_buf = h.wide_buf;
          in_buf = h.in_buf;
        }))
act-Stays released n s h = record {
  wide_ssi = h.wide_ssi;
  wide_ssi2 = length-write_at s.radio.ssi2 0 (replicate 32 0) ∙ h.wide_ssi2;
  wide_gssi = h.wide_gssi;
  wide_buf = h.wide_buf;
  in_buf = h.in_buf;
}
act-Stays ended n s h = record {
  wide_ssi = length-write_at s.radio.ssi 0 (replicate 32 0) ∙ h.wide_ssi;
  wide_ssi2 = h.wide_ssi2;
  wide_gssi = length-write_at s.radio.gssi 0 (replicate 32 0) ∙ h.wide_gssi;
  wide_buf = h.wide_buf;
  in_buf = h.in_buf;
}
act-Stays other n s h = h

scan-Stays : (fuel n : ℕ) (s : Scan) → IsTerminal s.radio → Post Stays (scan fuel n s)
unfolding scan Post
scan-Stays zero n s h = tt
scan-Stays (suc fuel) n s h =
    elim (ltb s.c n)
      as (λ b. Post Stays (elim b [
        | true ↦ classify (drop s.c s.radio.buf) >>= λ m. act m n s >>= λ s'. scan fuel n s'
        | false ↦ ok s
      ])) [
        | true ↦ Post-bind Stays (classify (drop s.c s.radio.buf)) _ (λ m _.
            Post-bind Stays (act m n s) _
              (λ s' p. scan-Stays fuel n s' (Post-use Stays (act m n s) (act-Stays m n s h) p)))
        | false ↦ h
      ]

receive-IsTerminal : (rx : List ℕ) (r : Radio) → IsTerminal r → Post IsTerminal (receive rx r)
unfolding Post
receive-IsTerminal rx r h =
    let got = take (256 - r.nbytes) rx in
    Post-bind IsTerminal (assert (ltb 0 (256 - r.nbytes))) _ (λ _ _.
      Post-bind IsTerminal (memcpy r.buf r.nbytes got) _ (λ buf p. record {
        wide_ssi = h.wide_ssi;
        wide_ssi2 = h.wide_ssi2;
        wide_gssi = h.wide_gssi;
        wide_buf = Post-use (Wide 256) _ (memcpy-Wide r.buf r.nbytes got 256 h.wide_buf) p;
        in_buf = omega (arith, length-take (256 - r.nbytes) rx, h.in_buf);
      }))

module _ (ans : Answers) (rx : List ℕ) (d : Spudp) (r : Radio) (h : IsTerminal r) where
  abbrev Done : Radio × List HwCall × List NetCall → Type 0
  Done t = IsTerminal t.0

  line-Done :
      (r' : Radio) (line : Bool)
      → IsTerminal r'
      → Post Done (elim line [
        | true ↦ Spudp.string_send ans (take r'.nbytes r'.buf) d >>= λ sent.
            scan (suc r'.nbytes) r'.nbytes (record { c = 0; len = none; radio = r'; hw = [] })
            >>= λ s. ok (record s.radio { nbytes = 0 }, s.hw, sent.1)
        | false ↦ ok (r', [], [])
      ])
  unfolding Post
  line-Done r' true k =
      let begun : Scan = record { c = 0; len = none; radio = r'; hw = [] } in
      Post-bind Done (Spudp.string_send ans (take r'.nbytes r'.buf) d) _ (λ sent _.
        Post-bind Done (scan (suc r'.nbytes) r'.nbytes begun) _ (λ s p.
          let kept = Post-use Stays _ (scan-Stays (suc r'.nbytes) r'.nbytes begun k) p in
          record {
            wide_ssi = kept.wide_ssi;
            wide_ssi2 = kept.wide_ssi2;
            wide_gssi = kept.wide_gssi;
            wide_buf = kept.wide_buf;
            in_buf = omega arith;
          }))
  line-Done r' false k = k

  radio_comm-Done : Post Done (radio_comm ans rx d r)
  unfolding radio_comm
  radio_comm-Done = Post-bind Done (receive rx r) _ (λ r' p.
      let k = Post-use IsTerminal (receive rx r) (receive-IsTerminal rx r h) p in
      Post-bind Done (ends_line r') _ (λ line _. line-Done r' line k))

-- Whatever the terminal sends, the identities keep their 32 bytes, the line its 256, and the number of
-- bytes of a begun line stays within them.
pub radio_comm-IsTerminal :
    (ans : Answers) (rx : List ℕ) (d : Spudp) (r r' : Radio) (hw : List HwCall)
    (calls : List NetCall)
    → IsTerminal r
    → radio_comm ans rx d r ≡ ok (r', hw, calls)
    → IsTerminal r'
radio_comm-IsTerminal ans rx d r r' hw calls h went =
    Post-use (Done ans rx d r h) (radio_comm ans rx d r) (radio_comm-Done ans rx d r h) went
