-- ===== src/Httpd/Renewal/Store.antt =====
-- apps/httpd.c: the new password in the buffer, and how the fields of its request follow each other.
use roip.Prelude.{
  ℕ, ◌+◌, ◌<◌, ◌≡◌, refl, sym, ◌∙◌, List, [], ◌∷◌, ◌++◌, append_assoc, arith, length,
  take-append_length, slice, write_at, length-write_at, memcpy-ok, slice-write_at,
  slice-write_at_before, ok,
}
use roip.Httpd.{store_password}

-- What the buffer holds once the new password is stored: it and its NUL in the password's member, and
-- the old settings in front of it.
abbrev pub Stored : List ℕ → List ℕ → List ℕ → Type 0
Stored new fd fd' =
    (slice 26 (length new) fd' ≡ new)
    × (slice (26 + length new) 1 fd' ≡ 0 ∷ [])
    × (slice 0 26 fd' ≡ slice 0 26 fd)

pub store_password-fits :
    (new junk fd : List ℕ)
    → length fd ≡ 256
    → length new < 16
    → (fd' : List ℕ) × (store_password (new ++ (0 ∷ junk)) (length new) fd ≡ ok fd')
      × Stored new fd fd'
unfolding store_password
store_password-fits new junk fd w h =
    let n = length new in
    let fd1 = write_at fd 26 new in
    let w1 : length fd1 ≡ 256 = length-write_at fd 26 new ∙ w in
    let text = take-append_length new (0 ∷ junk) in
    let copied = memcpy-ok fd 26 new (omega arith) in
    let closed = memcpy-ok fd1 (26 + n) (0 ∷ []) (omega arith) in
    (
      write_at fd1 (26 + n) (0 ∷ []),
      rw (text, copied, closed) refl,
      (
        slice-write_at_before fd1 (26 + n) (0 ∷ []) 26 n (omega arith)
            ∙ slice-write_at fd 26 new (omega arith),
        slice-write_at fd1 (26 + n) (0 ∷ []) (omega arith),
        slice-write_at_before fd1 (26 + n) (0 ∷ []) 0 26 (omega arith)
            ∙ slice-write_at_before fd 26 new 0 26 (omega arith),
      ),
    )

-- A field of a request: its name, `=`, its value of at least one character, and the character behind.
abbrev pub field_text : ℕ → List ℕ → ℕ → List ℕ → List ℕ → List ℕ
field_text x name f0 fs rest = name ++ (b'=' ∷ (f0 ∷ (fs ++ (x ∷ rest))))

-- Behind the first character of a value, the next field's name begins for the scan.
pub next_field :
    (x : ℕ) (os name : List ℕ) (f0 : ℕ) (fs rest : List ℕ)
    → os ++ (b'&' ∷ field_text x name f0 fs rest) ≡ field_text x (os ++ (b'&' ∷ name)) f0 fs rest
next_field x os name f0 fs rest =
    sym (append_assoc os (b'&' ∷ name) (b'=' ∷ (f0 ∷ (fs ++ (x ∷ rest)))))
