-- ===== src/Upstreams/Http/Outcome.antt =====
-- upstreams/proxy_to_upstream/http.rs, `http_connect` where it succeeds.
use tls_proxy_tunnel.Base.{
  ℕ, ◌≤◌, ◌≡◌, ◌≢◌, refl, sym, ap, ◌∙◌, subst, inl, inr, Bool, true, false, Option, List, [], ◌∷◌,
  ◌++◌, Char, String, arith, take, All,
}
use tls_proxy_tunnel.Base.Dict.{Dict}
use tls_proxy_tunnel.Utf8.{Bytes, as_bytes}
use tls_proxy_tunnel.Upstreams.Failure.{Result, ok, err, Result-cases}
use tls_proxy_tunnel.Upstreams.Status.{parse_connect_status, check_status}
use tls_proxy_tunnel.Upstreams.Status.Codes.{check_status_iff}
use tls_proxy_tunnel.Upstreams.Http.{
  build_request, WriteEvent, wrote, Progress, done, failed, waiting, write_loop, ReadEvent,
  has_header_end, Response, read_loop, Connected, after_status, after_read, after_write,
  send_request, http_connect,
}
use tls_proxy_tunnel.Upstreams.Http.Reading.{pieces}
use tls_proxy_tunnel.Upstreams.Http.Writing.{write_loop-take, write_loop_complete}
use tls_proxy_tunnel.Upstreams.Http.Ended.{read_loop-IsRead}

-- What a successful `http_connect` has done.
pub record IsTunnel (request : Result String) (reads : List ReadEvent) (c : Connected)
    : Type 0 where
  pub text : String
  pub built : request ≡ ok text
  -- The upstream got a beginning of the request.
  pub count : ℕ
  pub sent : c.sent ≡ take count (as_bytes text)
  -- The response is all that the first reads brought, up to and with the read that brought the
  -- header's end, which was not there before; its status is a success.
  pub used : List ReadEvent
  pub split : reads ≡ used ++ c.response.left
  pub before : List ReadEvent
  pub last : ReadEvent
  pub last_of : used ≡ before ++ last ∷ []
  pub none_before : has_header_end (pieces before) ≡ false
  pub buffer : c.response.buffer ≡ pieces used
  pub ended : has_header_end c.response.buffer ≡ true
  pub parsed : parse_connect_status c.response.buffer ≡ ok c.response.status
  pub success : (200 ≤ c.response.status) × (c.response.status ≤ 299)

after_status-done :
    (sent : Bytes) (r : Response) (c : Connected)
    → after_status sent r (check_status r.status) ≡ done c
    → (check_status r.status ≡ ok tt) × (c.sent ≡ sent) × (c.response ≡ r)
unfolding after_status
after_status-done sent r c h = elim (Result-cases (check_status r.status)) [
  | inl (u, e) ↦ (ground arith, ground arith, ground arith)
  | inr (x, e) ↦ ground arith
]

after_read-done :
    (sent : Bytes) (p : Progress Response) (c : Connected)
    → after_read sent p ≡ done c
    → (r : Response) × (p ≡ done r) × (after_status sent r (check_status r.status) ≡ done c)
unfolding after_read
after_read-done sent (done r) c h = (r, refl, h)
after_read-done sent (failed x) c h = absurd (cc)
after_read-done sent waiting c h = absurd (cc)

after_write-done :
    (w : Bytes × Progress (Unit {0})) (reads : List ReadEvent) (c : Connected)
    → after_write w reads ≡ done c
    → after_read w.0 (read_loop [] reads) ≡ done c
unfolding after_write
after_write-done (sent, done u) reads c h = h
after_write-done (sent, failed x) reads c h = absurd (cc)
after_write-done (sent, waiting) reads c h = absurd (cc)

send_request-IsTunnel :
    (request : Result String) (writes : List WriteEvent) (reads : List ReadEvent) (c : Connected)
    → send_request request writes reads ≡ done c
    → IsTunnel request reads c
unfolding send_request has_header_end
send_request-IsTunnel (err x) writes reads c h = absurd (cc)
send_request-IsTunnel (ok text) writes reads c h =
    let w = write_loop (as_bytes text) 0 writes in
    let (r, e, h') = after_read-done w.0 (read_loop [] reads) c (after_write-done w reads c h) in
    let (good, sent, same) = after_status-done w.0 r c h' in
    let (k, begins) = write_loop-take (as_bytes text) 0 writes in
    let i = read_loop-IsRead [] reads r refl e in
    record {
      text = text;
      built = refl;
      count = k;
      sent = sent ∙ begins;
      used = i.used;
      before = i.before;
      last = i.last;
      last_of = i.last_of;
      none_before = i.none_before;
      split = i.split ∙ ap (λ (x : Response). i.used ++ x.left) (sym same);
      buffer = ap (λ (x : Response). x.buffer) same ∙ i.joined;
      ended = subst (λ (x : Response). has_header_end x.buffer ≡ true) (sym same) i.ended;
      parsed = subst (λ x. parse_connect_status x.buffer ≡ ok x.status) (sym same) i.parsed;
      success =
          subst (λ (x : Response). (200 ≤ x.status) × (x.status ≤ 299)) (sym same)
            ((check_status_iff r.status).0 good);
    }

after_write_wrote :
    (w : Bytes × Progress (Unit {0})) (reads : List ReadEvent) (c : Connected)
    → after_write w reads ≡ done c
    → w.1 ≡ done tt
unfolding after_write
after_write_wrote (sent, done u) reads c h = refl
after_write_wrote (sent, failed x) reads c h = absurd (cc)
after_write_wrote (sent, waiting) reads c h = absurd (cc)

send_request_sends :
    (text : String) (writes : List WriteEvent) (reads : List ReadEvent) (c : Connected)
    → All (λ e. e ≢ wrote 0) writes
    → send_request (ok text) writes reads ≡ done c
    → c.sent ≡ as_bytes text
unfolding send_request
send_request_sends text writes reads c nz h =
    let w = write_loop (as_bytes text) 0 writes in
    let (r, e, h') = after_read-done w.0 (read_loop [] reads) c (after_write-done w reads c h) in
    (after_status-done w.0 r c h').1
    ∙ write_loop_complete (as_bytes text) 0 writes nz (after_write_wrote w reads c h)

module _ (is_alphanumeric : Char → Bool) (env : String → Option String) where
  -- When `http_connect` succeeds, the request was built, a beginning of it was sent, and the buffer
  -- is all that the reads up to one of them brought, with a status from 200 to 299, where the
  -- header's end is in it and was not before this read; only the later reads are left for the
  -- relay, so that what came behind the header's end in the same read is not.
  pub http_connect-IsTunnel :
      (target : String) (headers : Dict String) (writes : List WriteEvent) (reads : List ReadEvent)
      (c : Connected)
      → http_connect is_alphanumeric env target headers writes reads ≡ done c
      → IsTunnel (build_request is_alphanumeric env target headers) reads c
  unfolding http_connect
  http_connect-IsTunnel target headers writes reads c =
      send_request-IsTunnel (build_request is_alphanumeric env target headers) writes reads c

  -- If `try_write` never answers 0 and `http_connect` succeeds, the upstream was sent exactly the
  -- bytes of the request.
  pub http_connect_sends_request :
      (target : String) (headers : Dict String) (writes : List WriteEvent) (reads : List ReadEvent)
      (c : Connected) (text : String)
      → All (λ e. e ≢ wrote 0) writes
      → build_request is_alphanumeric env target headers ≡ ok text
      → http_connect is_alphanumeric env target headers writes reads ≡ done c
      → c.sent ≡ as_bytes text
  unfolding http_connect
  http_connect_sends_request target headers writes reads c text nz b h =
      let h' : send_request (ok text) writes reads ≡ done c = rw b at h in
      send_request_sends text writes reads c nz h'
