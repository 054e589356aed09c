-- ===== src/Voice/Fields.antt =====
-- apps/speex_udp.c: the receiver's view of a packet of `spudp_send`.
use roip.Prelude.{
  ℕ, ◌+◌, ◌-◌, ◌≡◌, refl, ap, ap₂, ◌∙◌, false, List, [], ◌∷◌, ◌++◌, append-nil, arith, ◌<◌, ok,
  Option, none, some, ◌==◌, if◌then◌else◌, length, take, take-append_length, drop,
  drop-append_length,
}
use roip.Voice.{fill_header}
use roip.Voice.Header.{header, length-header, IsText, fill_header-header}

-- Up to the first comma, and behind it; `none` if there is none.
unfoldable pub split_comma : List ℕ → Option (List ℕ × List ℕ)
split_comma [] = none
split_comma (x ∷ xs) =
    let rest = split_comma xs in
    if x == 44 then some ([], xs) else elim rest [ none ↦ none | some (a, b) ↦ some (x ∷ a, b) ]

read_texts : List ℕ → List ℕ → Option (List ℕ × List ℕ × List ℕ × List ℕ)
read_texts texts coded = elim (split_comma texts) [
  | none ↦ none
  | some (a, more) ↦ elim (split_comma more) [ none ↦ none | some (b, c) ↦ some (a, b, c, coded) ]
]

-- The texts of a packet, and what is behind the header: the first byte is the header's length.
pub read_packet : List ℕ → Option (List ℕ × List ℕ × List ℕ × List ℕ)
read_packet [] = none
read_packet (n ∷ bytes) = read_texts (take (n - 1) bytes) (drop (n - 1) bytes)

abbrev pub HasNoComma : List ℕ → Type 0
HasNoComma [] = Unit {0}
HasNoComma (x ∷ xs) = ((x == 44) ≡ false) × HasNoComma xs

split_comma-append : (a b : List ℕ) → HasNoComma a → split_comma (a ++ (44 ∷ b)) ≡ some (a, b)
unfolding split_comma
split_comma-append [] b h = refl
split_comma-append (x ∷ a) b (h, k) = rw (h, split_comma-append a b k) refl

read_body :
    (n : ℕ) (body coded a more b c : List ℕ)
    → n - 1 ≡ length body
    → split_comma body ≡ some (a, more)
    → split_comma more ≡ some (b, c)
    → read_packet (n ∷ body ++ coded) ≡ some (a, b, c, coded)
unfolding read_packet read_texts
read_body n body coded a more b c wide first second =
    ap (λ k. read_texts (take k (body ++ coded)) (drop k (body ++ coded))) wide
    ∙ (ap₂ (λ (t u : List ℕ). read_texts t u) (take-append_length body coded)
          (drop-append_length body coded)
        ∙ rw (first, read_texts) (rw (second, read_texts) refl))

read_packet-header :
    (a b c coded : List ℕ)
    → HasNoComma a
    → HasNoComma b
    → read_packet (header a b c ++ coded) ≡ some (a, b, c, coded)
read_packet-header a b c coded h k =
    let body : List ℕ = a ++ (44 ∷ b ++ (44 ∷ c ++ [])) in
    let wide : length a + length b + length c + 3 - 1 ≡ length body =
      omega (arith, length-header a b c) in
    read_body (length a + length b + length c + 3) body coded a (b ++ (44 ∷ c ++ [])) b (c ++ [])
      wide (split_comma-append a (b ++ (44 ∷ c ++ [])) h) (split_comma-append b (c ++ []) k)
    ∙ ap (λ r. some (a, b, r, coded)) (append-nil c)

-- The three texts, of which the first two have no comma, and the codec's bytes are read back from a
-- packet that begins with the bytes that `spudp_send` fills in, if the header has less than 256 bytes.
pub fields_read_back :
    (a b c id gid id2 coded : List ℕ)
    → IsText a id
    → IsText b gid
    → IsText c id2
    → length a + length b + length c < 253
    → HasNoComma a
    → HasNoComma b
    → (enc : List ℕ) × (n : ℕ) × (fill_header id gid id2 ≡ ok (enc, n, n))
      × (read_packet (take n enc ++ coded) ≡ some (a, b, c, coded))
fields_read_back a b c id gid id2 coded x y z few h k =
    let (enc, q, wide, first) = fill_header-header a b c few id gid id2 x y z in
    (
      enc,
      length (header a b c),
      q,
      ap (λ r. read_packet (r ++ coded)) first ∙ read_packet-header a b c coded h k,
    )
