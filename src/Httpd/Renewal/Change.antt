-- ===== src/Httpd/Renewal/Change.antt =====
-- apps/httpd.c: what a request for a new password does.
use roip.Prelude.{
  if◌then◌else◌, ℕ, ◌+◌, ◌<◌, ◌≡◌, subst, Bool, List, [], ◌∷◌, ◌++◌, length, ok, some,
}
use roip.Httpd.Scan.Numbers.{Lacks}
use roip.Httpd.Replies.{
  tcp_recved, tcp_write, tcp_output, tcp_close, pbuf_free, write_flash, changed_password_page,
  change_unsuccessful_page,
}
use roip.Httpd.Renewal.{Within, value, at_next}
use roip.Httpd.Renewal.Store.{field_text, next_field}
use roip.Httpd.{Http, Site, pass_sent, disconnected, classify, pass_set_request, http_recv}

module _ (end : ℕ) (rq n1 n2 n3 : List ℕ) (o0 : ℕ) (os : List ℕ) (w0 : ℕ) (ws : List ℕ) (c0 : ℕ)
    (cs rest : List ℕ) (old_named : Lacks b'=' n1) (new_named : Lacks b'=' (os ++ (b'&' ∷ n2)))
    (confirm_named : Lacks b'=' (ws ++ (b'&' ∷ n3))) (old_ends : Lacks b'&' os)
    (new_ends : Lacks b'&' ws) (confirm_ends : Lacks b' ' cs)
    (at : Within end rq 18
      (field_text b'&' n1 o0 os (field_text b'&' n2 w0 ws (field_text b' ' n3 c0 cs rest)))) where
  abbrev third : List ℕ
  third = field_text b' ' n3 c0 cs rest

  abbrev p1 : ℕ
  p1 = value b'&' end 17 rq n1 o0 os (field_text b'&' n2 w0 ws third) old_named old_ends at

  at2 : Within end rq (p1 + 1) (field_text b'&' (os ++ (b'&' ∷ n2)) w0 ws third)
  at2 =
      subst (Within end rq (p1 + 1)) (next_field b'&' os n2 w0 ws third)
        (at_next b'&' end 17 rq n1 o0 os _ old_named old_ends at)

  abbrev p2 : ℕ
  p2 = value b'&' end p1 rq (os ++ (b'&' ∷ n2)) w0 ws third new_named new_ends at2

  module _ (s : Http) (st_ok : s.st ≡ pass_sent) (w : length s.flash_buff ≡ 256)
      (k : classify rq ≡ ok pass_set_request) (short1 : length os < 15) (short2 : length ws < 15)
      (short3 : length cs < 15) (text : Lacks 0 (w0 ∷ ws)) where
    abbrev Outcome : Site → Bool → List ℕ → Type 0
    Outcome site r fd =
        http_recv site (some (end, rq)) s
        ≡ ok (
          record s { st = disconnected; flash_buff = if r then fd else s.flash_buff },
          tcp_recved end
                ∷ (if r
                    then write_flash fd ∷ tcp_write changed_password_page ∷ []
                    else tcp_write change_unsuccessful_page ∷ [])
              ++ (tcp_output ∷ tcp_close ∷ pbuf_free ∷ []),
        )
