-- ===== src/Upstreams/Http/Request/Written.antt =====
-- upstreams/proxy_to_upstream/http.rs, `build_request` and a reader of its text.
use Prim.Native.String
use mathlib.Core.List.{append_assoc, append-nil}
use tls_proxy_tunnel.Base.{
  ℕ, ◌≡◌, refl, sym, ap, ◌∙◌, Bool, true, false, Option, some, List, [], ◌∷◌, ◌++◌, map, Char,
  String, arith, ◌==◌, All, All-append,
}
use tls_proxy_tunnel.Base.Dict.{Dict}
use tls_proxy_tunnel.Base.Texts.{codes, codes-append}
use tls_proxy_tunnel.Upstreams.Failure.{Result, ok, ◌>>=◌, bind-ok}
use tls_proxy_tunnel.Upstreams.Header.{resolve_header_value}
use tls_proxy_tunnel.Upstreams.Http.{crlf, push_headers, build_request}
use tls_proxy_tunnel.Upstreams.Http.Request.{
  lines_from, split_at, check_words, read_target, cons_field, read_fields, pair_up, read_lines,
  read_request, Lacks,
}

lines_from_line :
    (line cs rest : List ℕ)
    → Lacks 13 cs
    → lines_from line (cs ++ 13 ∷ 10 ∷ rest) ≡ (line ++ cs) ∷ lines_from [] rest
lines_from_line line [] rest h = rw (append-nil line) refl
lines_from_line line (c ∷ []) rest h = rw (h.0, lines_from) refl
lines_from_line line (c ∷ d ∷ cs) rest h =
    rw (h.0, lines_from)
      (lines_from_line (line ++ c ∷ []) (d ∷ cs) rest h.1
        ∙ ap (λ l. l ∷ lines_from [] rest) (append_assoc line (c ∷ []) (d ∷ cs)))

split_at_first :
    (b : ℕ) (front back : List ℕ)
    → Lacks b front
    → (b == b) ≡ true
    → split_at b (front ++ b ∷ back) ≡ some (front, back)
split_at_first b [] back h e = rw (e) refl
split_at_first b (c ∷ front) back h e = rw (h.0, split_at_first b front back h.1 e) refl

-- A header as it is written, and as it is read.
abbrev pub field_codes : Dict String → List ℕ
field_codes [] = []
field_codes ((name, value) ∷ fields) =
    codes name ++ b':' ∷ 32 ∷ (codes value ++ 13 ∷ 10 ∷ field_codes fields)

abbrev pub IsClean : String × String → Type 0
IsClean (name, value) = Lacks b':' (codes name) × Lacks 13 (codes name) × Lacks 13 (codes value)

abbrev pub field_of : String × String → List ℕ × List ℕ
field_of (name, value) = (codes name, codes value)

read_fields_line :
    (name value : List ℕ) (rest : List (List ℕ))
    → Lacks b':' name
    → read_fields ((name ++ b':' ∷ 32 ∷ value) ∷ rest)
      ≡ cons_field (some (name, 32 ∷ value)) (read_fields rest)
read_fields_line [] value rest h = refl
read_fields_line (c ∷ name) value rest h =
    ap (λ f. cons_field f (read_fields rest)) (split_at_first b':' (c ∷ name) (32 ∷ value) h refl)

read_fields-field_codes :
    (fields : Dict String)
    → All IsClean fields
    → read_fields (lines_from [] (field_codes fields ++ 13 ∷ 10 ∷ [])) ≡ some (map field_of fields)
read_fields-field_codes [] h = refl
read_fields-field_codes ((name, value) ∷ fields) ((colon, cr, cr'), h) =
    let rest = field_codes fields ++ 13 ∷ 10 ∷ [] in
    let line = codes name ++ b':' ∷ 32 ∷ codes value in
    let parts : field_codes ((name, value) ∷ fields) ++ 13 ∷ 10 ∷ [] ≡ line ++ 13 ∷ 10 ∷ rest =
      simp append_assoc in
    let clean : Lacks 13 line =
      All-append (λ c. (c == 13) ≡ false) (codes name) (b':' ∷ 32 ∷ codes value) cr
        (refl, (refl, cr')) in
    ap (λ cs. read_fields (lines_from [] cs)) parts
    ∙ ap read_fields (lines_from_line [] line rest clean)
    ∙ read_fields_line (codes name) (codes value) (lines_from [] rest) colon
    ∙ ap (cons_field (some (codes name, 32 ∷ codes value))) (read_fields-field_codes fields h)

-- The line of the request in front of its headers.
read_target_line :
    (target : List ℕ)
    → Lacks 32 target
    → read_target (codes "CONNECT " ++ target ++ codes " HTTP/1.1") ≡ some target
read_target_line target h =
    ap (check_words (codes "CONNECT")) (split_at_first 32 target (codes "HTTP/1.1") h refl)

module _ (is_alphanumeric : Char → Bool) (env : String → Option String) where
  -- The headers with their placeholders replaced, if all of them can be.
  abbrev pub resolve_headers : Dict String → Result (Dict String)
  resolve_headers [] = ok []
  resolve_headers ((name, value) ∷ rest) = do
    resolved ← resolve_header_value is_alphanumeric env value
    fields ← resolve_headers rest
    ok ((name, resolved) ∷ fields)

  push_headers-field_codes :
      (headers fields : Dict String) (buf : String)
      → resolve_headers headers ≡ ok fields
      → (text : String) × (push_headers is_alphanumeric env headers buf ≡ ok text)
        × (codes text ≡ codes buf ++ field_codes fields)
  unfolding push_headers
  push_headers-field_codes [] fields buf h =
      let none_left : [] ≡ fields = ground arith in
      (buf, refl, rw (← none_left) (sym (append-nil (codes buf))))
  push_headers-field_codes ((name, value) ∷ rest) fields buf h =
      let (resolved, e, h') = bind-ok (resolve_header_value is_alphanumeric env value) _ h in
      let (later, e', h'') = bind-ok (resolve_headers rest) _ h' in
      let cons : (name, resolved) ∷ later ≡ fields = ground arith in
      let line = String.◌++◌ name (String.◌++◌ ": " (String.◌++◌ resolved crlf)) in
      let (text, made, there) = push_headers-field_codes rest later (String.◌++◌ buf line) e' in
      (
        text,
        ap
              (λ (r : Result String). r >>= λ x.
                push_headers is_alphanumeric env rest
                  (String.◌++◌ buf (String.◌++◌ name (String.◌++◌ ": " (String.◌++◌ x crlf)))))
              e
            ∙ made,
        there ∙ (simp (codes-append, append_assoc)) ∙ ap (λ fs. codes buf ++ field_codes fs) cons,
      )

  -- If the placeholders of all headers can be resolved, the target has neither a blank nor a CR,
  -- the header names neither a colon nor a CR and the resolved values no CR, then the request is
  -- built, and a reader of HTTP requests gets from its text exactly the target and the resolved
  -- headers, in order.
  pub read_request-build_request :
      (target : String) (headers fields : Dict String)
      → Lacks 32 (codes target)
      → Lacks 13 (codes target)
      → resolve_headers headers ≡ ok fields
      → All IsClean fields
      → (text : String) × (build_request is_alphanumeric env target headers ≡ ok text)
        × (read_request (codes text) ≡ some (codes target, map field_of fields))
  unfolding build_request
  read_request-build_request target headers fields blank cr resolved clean =
      let first = String.◌++◌ "CONNECT " (String.◌++◌ target " HTTP/1.1\r\n") in
      let (text, made, there) = push_headers-field_codes headers fields first resolved in
      let line = codes "CONNECT " ++ codes target ++ codes " HTTP/1.1" in
      let tail = field_codes fields ++ 13 ∷ 10 ∷ [] in
      let whole : codes (String.◌++◌ text crlf) ≡ line ++ 13 ∷ 10 ∷ tail =
        codes-append text crlf
        ∙ ap (λ cs. cs ++ 13 ∷ 10 ∷ []) there
        ∙ simp (codes-append, append_assoc) in
      let no_cr : Lacks 13 line =
        All-append (λ c. (c == 13) ≡ false) (codes "CONNECT " ++ codes target) (codes " HTTP/1.1")
          (All-append (λ c. (c == 13) ≡ false) (codes "CONNECT ") (codes target) (ground arith) cr)
          (ground arith) in
      (
        String.◌++◌ text crlf,
        rw (made) refl,
        ap read_request whole
            ∙ ap read_lines (lines_from_line [] line tail no_cr)
            ∙ ap (λ t. pair_up t (read_fields (lines_from [] tail)))
                (read_target_line (codes target) blank)
            ∙ ap (pair_up (some (codes target))) (read_fields-field_codes fields clean),
      )
