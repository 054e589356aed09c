-- ===== src/Httpd/Buffer.antt =====
-- apps/httpd.c: `flash_buff` keeps its length.
use roip.Prelude.{
  ℕ, ◌+◌, ◌≡◌, ◌∙◌, ap, subst, sym, inl, inr, leb, not, ◌&&◌, ◌==◌, List, [], ◌∷◌, Option, none,
  some, length, length-write_at, slice, memcpy, strlen, strncmp_eq, Result, ok, Post, Post-bind,
  Post-if, Post-use, ok-injective,
}
use roip.Httpd.Settings.Stored.{length-store_all}
use roip.Httpd.Guard.{guarded-cases}
use roip.Httpd.Replies.{HttpCall, reply, changed_configuration_page, changed_password_page}
use roip.Httpd.{
  Http, Site, disconnected, answered, refuse, password_of, right_password, check_password, parse,
  change_config, copy_field, store_password, change_password, guarded, Request, start_page,
  pass_sent_request, ip_set_request, change_pass_request, pass_set_request, unknown, classify,
  serve, http_recv,
}

abbrev Whole : Http × List HttpCall → Type 0
Whole (s, calls) = length s.flash_buff ≡ 256

length-memcpy :
    (xs : List ℕ) (off : ℕ) (bs : List ℕ) → Post (λ ys. length ys ≡ length xs) (memcpy xs off bs)
unfolding Post
length-memcpy xs off bs =
    Post-if (λ ys. length ys ≡ length xs) (leb (off + length bs) (length xs)) _ _
      (λ _. length-write_at xs off bs) (λ _. tt)

length-store_password :
    (new_password : List ℕ) (n : ℕ) (fd : List ℕ)
    → Post (λ ys. length ys ≡ length fd) (store_password new_password n fd)
unfolding store_password
length-store_password new_password n fd =
    Post-bind (λ ys. length ys ≡ length fd) (memcpy fd 26 (slice 0 n new_password)) _
      (λ xs p.
        let first = Post-use (λ ys. length ys ≡ length fd) _ (length-memcpy fd 26 _) p in
        subst (λ m. Post (λ ys. length ys ≡ m) (memcpy xs (26 + n) (0 ∷ []))) first
          (length-memcpy xs (26 + n) (0 ∷ [])))

answered-Whole :
    (s : Http) (page : List ℕ) → length s.flash_buff ≡ 256 → Post Whole (answered s page)
unfolding answered Post
answered-Whole s page w = Post-bind Whole (reply page) (λ calls. ok (s, calls)) (λ _ _. w)

refuse-Whole : (s : Http) → length s.flash_buff ≡ 256 → Post Whole (refuse s)
unfolding refuse
refuse-Whole s w = answered-Whole _ _ w

module _ (site : Site) (sector : length site.flash ≡ 256) (end : ℕ) (rq : List ℕ) (s : Http)
    (w : length s.flash_buff ≡ 256) where
  guarded-Whole : (r : Result (Http × List HttpCall)) → Post Whole r → Post Whole (guarded s r)
  guarded-Whole r h = elim (guarded-cases s r) [
    | inl open_ ↦ subst (Post Whole) (sym open_) h
    | inr shut ↦ subst (Post Whole) (sym shut) (refuse-Whole s w)
  ]

  check_password-Whole : Post Whole (check_password site end rq s)
  unfolding check_password
  check_password-Whole =
      Post-bind Whole (right_password (password_of site.flash) end rq) _ (λ right _.
        Post-if Whole right _ _ (λ _. answered-Whole _ _ sector)
          (λ _. refuse-Whole (record s { flash_buff = site.flash }) sector))

  change_config-Whole : Post Whole (change_config site end rq s)
  unfolding change_config Post
  change_config-Whole = Post-bind Whole (parse end rq) _ (λ new _.
      Post-bind Whole (reply changed_configuration_page) _
        (λ _ _. length-store_all new s.flash_buff w))

  change_password-Whole : Post Whole (change_password end rq s)
  unfolding change_password Post
  change_password-Whole = Post-bind Whole (copy_field 38 end rq 17) _ (λ old _.
      Post-bind Whole (copy_field 38 end rq old.1) _ (λ new _.
        Post-bind Whole (copy_field 32 end rq new.1) _ (λ confirm _.
          Post-bind Whole (strlen new.0) _ (λ n _.
            Post-bind Whole (strncmp_eq new.0 confirm.0 n) _ (λ same _.
              Post-if Whole (same && not (n == 0)) _ _
                (λ _. Post-bind Whole (store_password new.0 n s.flash_buff) _ (λ fd p.
                  Post-bind Whole (reply changed_password_page) _ (λ _ _.
                    Post-use (λ ys. length ys ≡ length s.flash_buff) _
                      (length-store_password new.0 n s.flash_buff) p
                    ∙ w)))
                (λ _. answered-Whole (record s { st = disconnected }) _ w))))))

  serve-Whole : (r : Request) → Post Whole (serve site end rq r s)
  unfolding serve Post
  serve-Whole start_page = answered-Whole s _ w
  serve-Whole pass_sent_request = check_password-Whole
  serve-Whole ip_set_request = guarded-Whole _ change_config-Whole
  serve-Whole change_pass_request = guarded-Whole _ (answered-Whole s _ w)
  serve-Whole pass_set_request = guarded-Whole _ change_password-Whole
  serve-Whole unknown = w

  request-Whole : Post Whole (http_recv site (some (end, rq)) s)
  unfolding http_recv Post
  request-Whole = Post-bind Whole (classify rq) _ (λ r _.
      Post-bind Whole (serve site end rq r s) _
        (λ a e. Post-use Whole (serve site end rq r s) (serve-Whole r) e))

-- Whatever is requested, the buffer has 256 bytes still.
pub length-http_recv :
    (site : Site) (packet : Option (ℕ × List ℕ)) (s s' : Http) (calls : List HttpCall)
    → length site.flash ≡ 256
    → length s.flash_buff ≡ 256
    → http_recv site packet s ≡ ok (s', calls)
    → length s'.flash_buff ≡ 256
unfolding http_recv
length-http_recv site none s s' calls sector w went =
    ap (λ (x : Http × List HttpCall). length x.0.flash_buff) (sym (ok-injective went)) ∙ w
length-http_recv site (some (end, rq)) s s' calls sector w went =
    Post-use Whole (http_recv site (some (end, rq)) s) (request-Whole site sector end rq s w) went
