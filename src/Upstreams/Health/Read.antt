-- ===== src/Upstreams/Health/Read.antt =====
-- upstreams/mod.rs, `health_handler`: the metrics page is read back.
use Prim.Native.String
use mathlib.Core.List.{append-nil, append_assoc, map-append}
use tls_proxy_tunnel.Base.{
  ℕ, ◌≡◌, refl, sym, ap, ◌∙◌, subst, false, some, List, [], ◌∷◌, ◌++◌, map, String, arith, ◌==◌,
  All, All-append, All-weaken, show,
}
use tls_proxy_tunnel.Base.Texts.{codes, codes-append, IsDigit, show-IsPrinted}
use tls_proxy_tunnel.Upstreams.Types.{MetricsEntry, Metrics}
use tls_proxy_tunnel.Upstreams.Health.{sample, active_gauge, limit_gauge}
use tls_proxy_tunnel.Upstreams.Health.Page.{unlines, active_line, limit_line, page}
use tls_proxy_tunnel.Upstreams.Health.Scraped.{
  Sample, lines_from, read_sample, read_lines, read_page, sample_of, samples, IsUnescaped, IsPlain,
  read_until_plain, lines_from-line, read_value-show,
}

abbrev IsNoBreak : ℕ → Type 0
IsNoBreak c = (c == 10) ≡ false

abbrev NotComment : List ℕ → Type 0
NotComment [] = ⊥
NotComment (c ∷ cs) = (c == b'#') ≡ false

-- A gauge's name can be read back.
record IsGauge (gauge : String) : Type 0 where
  start : NotComment (codes gauge)
  plain : All (λ c. ((c == b'{') ≡ false) × ((c == b'\\') ≡ false)) (codes gauge)
  one_line : All IsNoBreak (codes gauge)

active_gauge-IsGauge : IsGauge active_gauge
active_gauge-IsGauge = record {
  start = ground arith;
  plain = ground arith;
  one_line = ground arith;
}

limit_gauge-IsGauge : IsGauge limit_gauge
limit_gauge-IsGauge = record { start = ground arith; plain = ground arith; one_line = ground arith }

-- The parts of a sample's line.
abbrev tail_of : MetricsEntry → ℕ → List ℕ
tail_of e x =
    codes "name=\""
    ++ (codes e.name
        ++ b'"' ∷ (codes ",listen=\"" ++ (codes e.listen ++ b'"' ∷ (codes "} " ++ codes (show x)))))

codes-sample :
    (gauge : String) (e : MetricsEntry) (x : ℕ)
    → codes (sample gauge e x) ≡ codes gauge ++ b'{' ∷ tail_of e x
codes-sample gauge e x = simp codes-append

IsUnescaped-closed :
    (cs : List ℕ)
    → All IsUnescaped cs
    → All (λ c. ((c == b'"') ≡ false) × ((c == b'\\') ≡ false)) cs
IsUnescaped-closed cs h = All-weaken _ _ (λ c u. (u.0, u.1)) cs h

read_sample-sample :
    (gauge : String) (e : MetricsEntry) (x : ℕ)
    → IsGauge gauge
    → IsPlain e
    → read_sample (codes gauge ++ b'{' ∷ tail_of e x) ≡ some (sample_of gauge e x)
read_sample-sample gauge e x g p = rw (read_until_plain b'{' (codes gauge) (tail_of e x) g.plain) (
    rw
      (read_until_plain b'"' (codes e.name)
        (codes ",listen=\"" ++ (codes e.listen ++ b'"' ∷ (codes "} " ++ codes (show x))))
        (IsUnescaped-closed (codes e.name) p.0))
      (rw
        (read_until_plain b'"' (codes e.listen) (codes "} " ++ codes (show x))
          (IsUnescaped-closed (codes e.listen) p.1))
        (rw (read_value-show x) refl)))

NotComment-append : (xs ys : List ℕ) → NotComment xs → NotComment (xs ++ ys)
NotComment-append [] ys h = absurd h
NotComment-append (x ∷ xs) ys h = h

read_lines-cons :
    (line : List ℕ) (rest : List (List ℕ)) (s : Sample) (ss : List Sample)
    → NotComment line
    → read_sample line ≡ some s
    → read_lines rest ≡ some ss
    → read_lines (line ∷ rest) ≡ some (s ∷ ss)
read_lines-cons [] rest s ss n h k = absurd n
read_lines-cons (c ∷ cs) rest s ss n h k = rw (n, h, k) refl

lines_from-unlines :
    (ls : List String)
    → All (λ l. All IsNoBreak (codes l)) ls
    → lines_from [] (codes (unlines ls)) ≡ map codes ls
lines_from-unlines [] h = refl
lines_from-unlines (l ∷ ls) (here, later) =
    ap (lines_from []) (
      codes-append (String.◌++◌ l "\n") (unlines ls)
      ∙ ap (λ cs. cs ++ codes (unlines ls)) (codes-append l "\n")
      ∙ append_assoc (codes l) (10 ∷ []) (codes (unlines ls)))
    ∙ lines_from-line [] (codes l) (codes (unlines ls)) here
    ∙ ap (λ rest. codes l ∷ rest) (lines_from-unlines ls later)

-- A line of the page has no line feed within it.
IsNoBreak-sample :
    (gauge : String) (e : MetricsEntry) (x : ℕ)
    → IsGauge gauge
    → IsPlain e
    → All IsNoBreak (codes (sample gauge e x))
IsNoBreak-sample gauge e x g (name, listen) =
    let digits =
      All-weaken IsDigit IsNoBreak (λ c d. ground arith) (codes (show x))
        (show-IsPrinted x).digits in
    let value = All-append IsNoBreak (codes "\"} ") (codes (show x)) (ground arith) digits in
    let with_listen =
      All-append IsNoBreak (codes e.listen) (codes "\"} " ++ codes (show x))
        (All-weaken IsUnescaped IsNoBreak (λ c u. u.2) (codes e.listen) listen) value in
    let with_name =
      All-append IsNoBreak (codes e.name)
        (codes "\",listen=\"" ++ (codes e.listen ++ (codes "\"} " ++ codes (show x))))
        (All-weaken IsUnescaped IsNoBreak (λ c u. u.2) (codes e.name) name)
        (All-append IsNoBreak (codes "\",listen=\"")
          (codes e.listen ++ (codes "\"} " ++ codes (show x))) (ground arith) with_listen) in
    subst (All IsNoBreak) (sym (codes-sample gauge e x)) (
      All-append IsNoBreak (codes gauge) (b'{' ∷ tail_of e x) g.one_line
        (All-append IsNoBreak (codes "{name=\"") _ (ground arith) with_name))

module _ (gauge : String) (g : IsGauge gauge) (value : MetricsEntry → ℕ) where
  read_lines-samples :
      (es : Metrics) (rest : List (List ℕ)) (ss : List Sample)
      → All IsPlain es
      → read_lines rest ≡ some ss
      → read_lines (map codes (map (λ e. sample gauge e (value e)) es) ++ rest)
        ≡ some (map (λ e. sample_of gauge e (value e)) es ++ ss)
  read_lines-samples [] rest ss h k = k
  read_lines-samples (e ∷ es) rest ss (here, later) k =
      let line = codes (sample gauge e (value e)) in
      let spread = sym (codes-sample gauge e (value e)) in
      read_lines-cons line (map codes (map (λ x. sample gauge x (value x)) es) ++ rest)
        (sample_of gauge e (value e)) (map (λ x. sample_of gauge x (value x)) es ++ ss)
        (subst NotComment spread (NotComment-append (codes gauge) _ g.start))
        (subst (λ l. read_sample l ≡ some (sample_of gauge e (value e))) spread
          (read_sample-sample gauge e (value e) g here))
        (read_lines-samples es rest ss later k)

  IsNoBreak-samples :
      (es : Metrics)
      → All IsPlain es
      → All (λ l. All IsNoBreak (codes l)) (map (λ e. sample gauge e (value e)) es)
  IsNoBreak-samples [] h = tt
  IsNoBreak-samples (e ∷ es) (here, later) =
      (IsNoBreak-sample gauge e (value e) g here, IsNoBreak-samples es later)

abbrev limit_samples : Metrics → List Sample
limit_samples metrics = map (λ e. sample_of limit_gauge e e.maxclients_limit) metrics

read_lines-limits :
    (metrics : Metrics)
    → All IsPlain metrics
    → read_lines (map codes (map limit_line metrics)) ≡ some (limit_samples metrics)
read_lines-limits metrics h =
    ap read_lines (sym (append-nil (map codes (map limit_line metrics))))
    ∙ read_lines-samples limit_gauge limit_gauge-IsGauge (λ e. e.maxclients_limit) metrics [] [] h
        refl
    ∙ ap some (append-nil (limit_samples metrics))

abbrev limit_comments : List String
limit_comments =
    "# HELP tpt_maxclients Maximum number of concurrent connections" ∷ "# TYPE tpt_maxclients gauge"
    ∷ []

-- If no name and no listen address of the entries has a double quote, a backslash or a line feed, a
-- reader of the text format gets from a metrics page exactly its samples, in order.
pub read_page-page :
    (running : ℕ → ℕ) (metrics : Metrics)
    → All IsPlain metrics
    → read_page (unlines (page running metrics)) ≡ some (samples running metrics)
read_page-page running metrics h =
    let active = λ (e : MetricsEntry). running e.semaphore in
    let front = map (active_line running) metrics in
    let back = limit_comments ++ map limit_line metrics in
    let one_line =
      All-append (λ l. All IsNoBreak (codes l)) front back
        (IsNoBreak-samples active_gauge active_gauge-IsGauge active metrics h)
        (
          ground arith,
          (
            ground arith,
            IsNoBreak-samples limit_gauge limit_gauge-IsGauge (λ e. e.maxclients_limit) metrics h,
          ),
        ) in
    ap read_lines
      (lines_from-unlines (page running metrics) (ground arith, (ground arith, one_line)))
    ∙ ap read_lines (map-append codes front back)
    ∙ read_lines-samples active_gauge active_gauge-IsGauge active metrics (map codes back)
        (limit_samples metrics) h (read_lines-limits metrics h)
