-- ===== src/Upstreams/Health/Scraped.antt =====
-- upstreams/mod.rs, `health_handler`: a reader of Prometheus' text format gets the numbers back from
-- the metrics page.
use mathlib.Core.List.{append-nil, append_assoc}
use tls_proxy_tunnel.Base.{
  ℕ, ◌≡◌, refl, sym, ap, ◌∙◌, Bool, true, false, ◌&&◌, Option, none, some, List, [], ◌∷◌, ◌++◌, map,
  String, arith, ◌==◌, leb, All, show, if◌then◌else◌,
}
use tls_proxy_tunnel.Base.Options.{◌>>=◌}
use tls_proxy_tunnel.Base.Texts.{codes, IsDigit, value, IsPrinted, show-IsPrinted}
use tls_proxy_tunnel.Upstreams.Types.{MetricsEntry, Metrics}
use tls_proxy_tunnel.Upstreams.Health.{active_gauge, limit_gauge}

-- A sample: the gauge, its labels `name` and `listen`, and its value.
pub record Sample : Type 0 where
  pub gauge : List ℕ
  pub name : List ℕ
  pub listen : List ℕ
  pub value : ℕ

-- The lines of a page behind the beginning of one.
abbrev pub lines_from : List ℕ → List ℕ → List (List ℕ)
lines_from [] [] = []
lines_from (c ∷ line) [] = (c ∷ line) ∷ []
lines_from line (c ∷ cs) = elim (c == 10) [
  | true ↦ line ∷ lines_from [] cs
  | false ↦ lines_from (line ++ c ∷ []) cs
]

abbrev pub prepend : ℕ → Option (List ℕ × List ℕ) → Option (List ℕ × List ℕ)
prepend c found = found >>= λ r. some (c ∷ r.0, r.1)

-- `\n` stands for a line feed, and any other escaped character for itself.
abbrev pub unescape : ℕ → ℕ
unescape c = if c == b'n' then 10 else c

-- A text up to its closing character, and what follows it; the flag is set behind a backslash.
abbrev pub read_until : ℕ → Bool → List ℕ → Option (List ℕ × List ℕ)
read_until close escaped [] = none
read_until close true (c ∷ cs) = prepend (unescape c) (read_until close false cs)
read_until close false (c ∷ cs) = elim (c == close) [
  | true ↦ some ([], cs)
  | false ↦ elim (c == b'\\') [
    | true ↦ read_until close true cs
    | false ↦ prepend c (read_until close false cs)
  ]
]

abbrev pub skip : List ℕ → List ℕ → Option (List ℕ)
skip [] cs = some cs
skip (w ∷ ws) [] = none
skip (w ∷ ws) (c ∷ cs) = let rest = skip ws cs in if w == c then rest else none

abbrev pub all_digits : List ℕ → Bool
all_digits [] = true
all_digits (c ∷ cs) = (leb b'0' c && leb c b'9') && all_digits cs

abbrev pub read_value : List ℕ → Option ℕ
read_value [] = none
read_value (c ∷ cs) = if all_digits (c ∷ cs) then some (value 0 (c ∷ cs)) else none

abbrev pub read_sample : List ℕ → Option Sample
read_sample line = read_until b'{' false line >>= λ g. skip (codes "name=\"") g.1 >>= λ n.
    read_until b'"' false n >>= λ name. skip (codes ",listen=\"") name.1 >>= λ l.
    read_until b'"' false l >>= λ listen. skip (codes "} ") listen.1 >>= λ v.
    read_value v >>= λ x. some (record { gauge = g.0; name = name.0; listen = listen.0; value = x })

-- Comments and empty lines are left out.
abbrev pub read_lines : List (List ℕ) → Option (List Sample)
read_lines [] = some []
read_lines ([] ∷ rest) = read_lines rest
read_lines ((c ∷ cs) ∷ rest) =
    let later = read_lines rest in
    if c == b'#' then later else read_sample (c ∷ cs) >>= λ s. later >>= λ more. some (s ∷ more)

abbrev pub read_page : String → Option (List Sample)
read_page body = read_lines (lines_from [] (codes body))

abbrev pub sample_of : String → MetricsEntry → ℕ → Sample
sample_of gauge e x = record {
  gauge = codes gauge;
  name = codes e.name;
  listen = codes e.listen;
  value = x;
}

abbrev pub samples : (ℕ → ℕ) → Metrics → List Sample
samples running metrics =
    map (λ e. sample_of active_gauge e (running e.semaphore)) metrics
    ++ map (λ e. sample_of limit_gauge e e.maxclients_limit) metrics

-- A character that a label needs no escape for.
abbrev pub IsUnescaped : ℕ → Type 0
IsUnescaped c = ((c == b'"') ≡ false) × ((c == b'\\') ≡ false) × ((c == 10) ≡ false)

abbrev pub IsPlain : MetricsEntry → Type 0
IsPlain e = All IsUnescaped (codes e.name) × All IsUnescaped (codes e.listen)

pub read_until_plain :
    (close : ℕ) (xs ys : List ℕ)
    → All (λ c. ((c == close) ≡ false) × ((c == b'\\') ≡ false)) xs
    → read_until close false (xs ++ close ∷ ys) ≡ some (xs, ys)
read_until_plain close [] ys h =
    let e : (close == close) ≡ true = ground arith in rw (e, read_until) refl
read_until_plain close (x ∷ xs) ys ((other, plain), h) =
    rw (other, plain, read_until_plain close xs ys h, read_until) refl

pub lines_from-line :
    (line l rest : List ℕ)
    → All (λ c. (c == 10) ≡ false) l
    → lines_from line (l ++ 10 ∷ rest) ≡ (line ++ l) ∷ lines_from [] rest
lines_from-line [] [] rest h = refl
lines_from-line (x ∷ line) [] rest h =
    ap (λ whole. (x ∷ whole) ∷ lines_from [] rest) (sym (append-nil line))
lines_from-line [] (c ∷ l) rest (other, h) =
    rw (other, lines_from) (lines_from-line (c ∷ []) l rest h)
lines_from-line (x ∷ line) (c ∷ l) rest (other, h) =
    rw (other, lines_from)
      (lines_from-line (x ∷ (line ++ c ∷ [])) l rest h
        ∙ ap (λ whole. (x ∷ whole) ∷ lines_from [] rest) (append_assoc line (c ∷ []) l))

all_digits-IsDigit : (cs : List ℕ) → All IsDigit cs → all_digits cs ≡ true
all_digits-IsDigit [] h = refl
all_digits-IsDigit (c ∷ cs) h = ground (arith, all_digits-IsDigit cs h.1)

read_value-IsPrinted : (n : ℕ) (cs : List ℕ) → IsPrinted n cs → read_value cs ≡ some n
read_value-IsPrinted n [] i = absurd (i.some_digit refl)
read_value-IsPrinted n (c ∷ cs) i = rw (all_digits-IsDigit (c ∷ cs) i.digits) (ap some i.stands_for)

pub read_value-show : (n : ℕ) → read_value (codes (show n)) ≡ some n
read_value-show n = let i = show-IsPrinted n in read_value-IsPrinted n (codes (show n)) i
