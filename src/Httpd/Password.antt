-- ===== src/Httpd/Password.antt =====
-- apps/httpd.c: the password opens the settings, and no other value does.
use roip.Prelude.{
  ℕ, ◌+◌, ◌-◌, ◌≤◌, ◌≡◌, refl, sym, ◌∙◌, ap, Bool, true, false, Bool-cases, inl, inr, ◌↔◌, List, [],
  ◌∷◌, ◌++◌, ◌&&◌, if◌then◌else◌, arith, ◌==◌, ==_iff, length, length-append, take,
  take-append_length, drop, drop-drop, drop-append_length, strncmp_eq, strlen, ok, some,
}
use roip.Httpd.Scan.Numbers.{Lacks, find-hit}
use roip.Httpd.Replies.{
  tcp_recved, tcp_write, tcp_output, tcp_close, pbuf_free, config_page, wrong_password_page,
}
use roip.Httpd.Replies.Bounds.{reply-config_page, reply-wrong_password_page}
use roip.Httpd.{
  Http, Site, pass_sent, disconnected, password_of, right_password, check_password, classify, serve,
  refuse, answered, pass_sent_request, http_recv,
}

pub strlen-terminated : (pw junk : List ℕ) → Lacks 0 pw → strlen (pw ++ (0 ∷ junk)) ≡ ok (length pw)
unfolding strlen
strlen-terminated [] junk l = refl
strlen-terminated (x ∷ pw) junk (ne, l) = rw (ne, strlen-terminated pw junk l) refl

-- A comparison over the whole length of a text tells whether the other memory begins with it.
pub strncmp_eq-prefix :
    (pw junk b : List ℕ)
    → Lacks 0 pw
    → length pw ≤ length b
    → (r : Bool) × (strncmp_eq (pw ++ junk) b (length pw) ≡ ok r)
      × ((r ≡ true) ↔ (take (length pw) b ≡ pw))
unfolding strncmp_eq
strncmp_eq-prefix [] junk b l h = (true, refl, ((λ _. refl), λ _. refl))
strncmp_eq-prefix (x ∷ pw) junk [] l h = absurd (omega arith)
strncmp_eq-prefix (x ∷ pw) junk (y ∷ b) (ne, l) h =
    let (r, e, (to, from)) = strncmp_eq-prefix pw junk b l (omega arith) in
    elim (Bool-cases (x == y)) [
      | inl same ↦
          let xy = (==_iff x y).0 same in
          (
            r,
            rw (same, ne) e,
            (
              (λ t. let tail = to t in cc),
              λ t. from (let tail : take (length pw) b ≡ pw = cc in tail),
            ),
          )
      | inr differ ↦ (
        false,
        rw differ refl,
        ((λ t. cc), λ t. absurd (let xy : x ≡ y = cc in let yes = (==_iff x y).1 xy in cc)),
      )
    ]

and_left : (a b : Bool) → (a && b) ≡ true → a ≡ true
and_left true b e = refl
and_left false b e = e

and_right : (a b : Bool) → (a && b) ≡ true → b ≡ true
and_right true b e = e
and_right false b e = cc

and_intro : (a b : Bool) → a ≡ true → b ≡ true → (a && b) ≡ true
and_intro true b e h = h
and_intro false b e h = e

module _ (name f rest pw junk : List ℕ) (end : ℕ) (rq : List ℕ)
    (d : drop 19 rq ≡ name ++ (b'=' ∷ (f ++ (b' ' ∷ rest)))) (named : Lacks b'=' name)
    (field : Lacks b' ' f) (ended : Lacks 0 pw) (inside : 20 + length name + length f ≤ end)
    (long : length pw ≤ length f + 1 + length rest) where
  behind : drop (19 + length name + 1) rq ≡ f ++ (b' ' ∷ rest)
  behind =
      drop-drop (19 + length name) 1 rq
      ∙ (ap (drop 1) (drop-drop 19 (length name) rq)
          ∙ (ap (λ r. drop 1 (drop (length name) r)) d ∙ ap (drop 1) (drop-append_length name _)))

  same_text : take (length pw) (f ++ (b' ' ∷ rest)) ≡ pw → length f ≡ length pw → f ≡ pw
  same_text t w =
      sym (take-append_length f (b' ' ∷ rest)) ∙ (ap (λ n. take n (f ++ (b' ' ∷ rest))) w ∙ t)

  -- The test is total, and it passes if and only if the field is the password.
  pub right_password_iff :
      (r : Bool) × (right_password (pw ++ (0 ∷ junk)) end rq ≡ ok r) × ((r ≡ true) ↔ (f ≡ pw))
  unfolding right_password
  right_password_iff =
      let start = 19 + length name in
      let e1 = find-hit b'=' end 18 rq name (f ++ (b' ' ∷ rest)) named d (omega arith) in
      let e2 = find-hit b' ' end start rq f rest field behind (omega arith) in
      let e3 = strlen-terminated pw junk ended in
      let (s, e4, (to, from)) =
        strncmp_eq-prefix pw (0 ∷ junk) (f ++ (b' ' ∷ rest)) ended
          (omega (arith, length-append f (b' ' ∷ rest))) in
      let width : start + 1 + length f - (start + 1) ≡ length f = omega arith in
      (
        s && (length f == length pw),
        rw (e1, e2, e3, behind, e4, width) refl,
        (
          (λ t.
              same_text (to (and_left s _ t))
                ((==_iff (length f) (length pw)).0 (and_right s _ t))),
          λ t.
              and_intro s _
                (from (
                  ap (λ g. take (length g) (f ++ (b' ' ∷ rest))) (sym t)
                  ∙ (take-append_length f (b' ' ∷ rest) ∙ t)))
                ((==_iff (length f) (length pw)).1 (ap length t)),
        ),
      )

  module _ (site : Site) (s : Http) (k : classify rq ≡ ok pass_sent_request)
      (kept : password_of site.flash ≡ pw ++ (0 ∷ junk)) where
    passed :
        right_password (pw ++ (0 ∷ junk)) end rq ≡ ok true
        → http_recv site (some (end, rq)) s
          ≡ ok (
            record s { st = pass_sent; flash_buff = site.flash },
            tcp_recved end
                ∷ tcp_write (config_page site.in_use)
                ∷ tcp_output
                ∷ tcp_close
                ∷ pbuf_free
                ∷ [],
          )
    unfolding http_recv serve check_password answered
    passed e = rw (k, kept, e, reply-config_page) refl

    failed :
        right_password (pw ++ (0 ∷ junk)) end rq ≡ ok false
        → http_recv site (some (end, rq)) s
          ≡ ok (
            record s { st = disconnected; flash_buff = site.flash },
            tcp_recved end
                ∷ tcp_write wrong_password_page
                ∷ tcp_output
                ∷ tcp_close
                ∷ pbuf_free
                ∷ [],
          )
    unfolding http_recv serve check_password answered refuse
    failed e = rw (k, kept, e, reply-wrong_password_page) refl

    -- A password request whose field, up to the next space, lies within the packet, and that is
    -- followed by as many bytes as the password in the flash memory can reach, is answered by the
    -- settings if and only if the field is the password: then the password counts as given. Any
    -- other field is answered by the refusal, and the password does not count as given.
    pub password_request :
        (r : Bool) × ((r ≡ true) ↔ (f ≡ pw))
        × (http_recv site (some (end, rq)) s
            ≡ ok (
              record s { st = if r then pass_sent else disconnected; flash_buff = site.flash },
              tcp_recved end
                  ∷ tcp_write (if r then config_page site.in_use else wrong_password_page)
                  ∷ tcp_output
                  ∷ tcp_close
                  ∷ pbuf_free
                  ∷ [],
            ))
    password_request = let (r, e, same) = right_password_iff in (r, same, outcome r e)
      where
        outcome :
            (r : Bool)
            → right_password (pw ++ (0 ∷ junk)) end rq ≡ ok r
            → http_recv site (some (end, rq)) s
              ≡ ok (
                record s { st = if r then pass_sent else disconnected; flash_buff = site.flash },
                tcp_recved end
                    ∷ tcp_write (if r then config_page site.in_use else wrong_password_page)
                    ∷ tcp_output
                    ∷ tcp_close
                    ∷ pbuf_free
                    ∷ [],
              )
        outcome true e = passed e
        outcome false e = failed e
