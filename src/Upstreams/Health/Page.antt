-- ===== src/Upstreams/Health/Page.antt =====
-- upstreams/mod.rs, `health_handler`: the metrics page, line by line.
use Prim.Native.String
use text.Mathlib.TextLemmas.{append-nil, nil-append, append_assoc}
use tls_proxy_tunnel.Base.{
  ℕ, ◌+◌, ◌≡◌, sym, ap, ◌∙◌, List, [], ◌∷◌, ◌++◌, map, String, arith, str_eq, All, if◌then◌else◌,
}
use tls_proxy_tunnel.Upstreams.Types.{MetricsEntry, Metrics}
use tls_proxy_tunnel.Upstreams.Health.{
  active, sample, active_gauge, limit_gauge, write_active, write_limits, metrics_body,
  health_handler,
}

-- A text from its lines, each with its line feed.
abbrev pub unlines : List String → String
unlines [] = ""
unlines (l ∷ ls) = String.◌++◌ (String.◌++◌ l "\n") (unlines ls)

unlines-append : (xs ys : List String) → unlines (xs ++ ys) ≡ String.◌++◌ (unlines xs) (unlines ys)
unlines-append [] ys = sym (nil-append (unlines ys))
unlines-append (x ∷ xs) ys =
    ap (String.◌++◌ (String.◌++◌ x "\n")) (unlines-append xs ys)
    ∙ sym (append_assoc (String.◌++◌ x "\n") (unlines xs) (unlines ys))

module _ (running : ℕ → ℕ) where
  abbrev pub active_line : MetricsEntry → String
  active_line e = sample active_gauge e (running e.semaphore)

abbrev pub limit_line : MetricsEntry → String
limit_line e = sample limit_gauge e e.maxclients_limit

abbrev pub page : (ℕ → ℕ) → Metrics → List String
page running metrics =
    "# HELP tpt_active_connections Current number of active connections"
      ∷ "# TYPE tpt_active_connections gauge"
      ∷ map (active_line running) metrics
    ++ "# HELP tpt_maxclients Maximum number of concurrent connections"
      ∷ "# TYPE tpt_maxclients gauge"
      ∷ map limit_line metrics

-- Each entry's semaphore has the permits that its running connections leave.
abbrev pub Accounts : (ℕ → ℕ) → (ℕ → ℕ) → MetricsEntry → Type 0
Accounts available running e = available e.semaphore + running e.semaphore ≡ e.maxclients_limit

write_limits_lem :
    (available : ℕ → ℕ) (metrics : Metrics) (body : String)
    → write_limits available metrics body ≡ String.◌++◌ body (unlines (map limit_line metrics))
unfolding write_limits
write_limits_lem available [] body = sym (append-nil body)
write_limits_lem available (e ∷ es) body =
    write_limits_lem available es _ ∙ append_assoc body _ (unlines (map limit_line es))

active-running :
    (available running limit : ℕ) → available + running ≡ limit → active limit available ≡ running
active-running available running limit h = omega arith

write_active_lem :
    (available running : ℕ → ℕ) (metrics : Metrics) (body : String)
    → All (Accounts available running) metrics
    → write_active available metrics body
      ≡ String.◌++◌ body (unlines (map (active_line running) metrics))
unfolding write_active
write_active_lem available running [] body h = sym (append-nil body)
write_active_lem available running (e ∷ es) body (here, later) =
    write_active_lem available running es _ later
    ∙ append_assoc body _ (unlines (map (active_line running) es))
    ∙ ap
        (λ n. String.◌++◌ body (
          String.◌++◌ (String.◌++◌ (sample active_gauge e n) "\n")
            (unlines (map (active_line running) es))))
        (active-running (available e.semaphore) (running e.semaphore) e.maxclients_limit here)

-- The text of six parts, from either end.
regroup :
    (a b c d e f : String)
    → String.◌++◌ (String.◌++◌ (String.◌++◌ (String.◌++◌ (String.◌++◌ a b) c) d) e) f
      ≡ String.◌++◌ a (String.◌++◌ b (String.◌++◌ c (String.◌++◌ d (String.◌++◌ e f))))
regroup a b c d e f = simp append_assoc

metrics_body_lem :
    (available running : ℕ → ℕ) (metrics : Metrics)
    → All (Accounts available running) metrics
    → metrics_body available metrics ≡ unlines (page running metrics)
unfolding metrics_body
metrics_body_lem available running metrics h =
    let third : String = "# HELP tpt_maxclients Maximum number of concurrent connections\n" in
    let fourth : String = "# TYPE tpt_maxclients gauge\n" in
    let limits = unlines (map limit_line metrics) in
    write_limits_lem available metrics _
    ∙ ap (λ a. String.◌++◌ (String.◌++◌ (String.◌++◌ a third) fourth) limits)
        (write_active_lem available running metrics _ h)
    ∙ regroup "# HELP tpt_active_connections Current number of active connections\n"
        "# TYPE tpt_active_connections gauge\n" (unlines (map (active_line running) metrics)) third
        fourth limits
    ∙ ap
        (λ t.
          String.◌++◌ "# HELP tpt_active_connections Current number of active connections\n"
            (String.◌++◌ "# TYPE tpt_active_connections gauge\n" t))
        (sym (unlines-append (map (active_line running) metrics) _))

-- If each entry's semaphore has the permits that its running connections leave of its limit,
-- `/metrics` is answered by the page with the number of running connections and the limit of each
-- entry, a line each, and every other path by `OK`.
pub health_handler_lem :
    (available running : ℕ → ℕ) (path : String) (metrics : Metrics)
    → All (Accounts available running) metrics
    → (health_handler available path metrics).body
      ≡ (if str_eq path "/metrics" then unlines (page running metrics) else "OK")
unfolding health_handler
health_handler_lem available running path metrics h =
    ground (arith, metrics_body_lem available running metrics h)
