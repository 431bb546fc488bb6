-- ===== src/Upstreams/Http/Request.antt =====
-- upstreams/proxy_to_upstream/http.rs, the request of `http_connect`: a reader of HTTP requests gets
-- back what was written.
pub mod Written
use tls_proxy_tunnel.Base.{
  ℕ, ◌≡◌, Bool, true, false, ◌&&◌, Option, none, some, List, [], ◌∷◌, ◌++◌, ◌==◌, if◌then◌else◌,
  All,
}
use tls_proxy_tunnel.Base.Texts.{codes}

-- The lines of a request, which end with CR LF; what follows the last of them is the last item.
abbrev pub lines_from : List ℕ → List ℕ → List (List ℕ)
lines_from line [] = line ∷ []
lines_from line (c ∷ []) = (line ++ c ∷ []) ∷ []
lines_from line (c ∷ d ∷ cs) = elim (c == 13 && d == 10) [
  | true ↦ line ∷ lines_from [] cs
  | false ↦ lines_from (line ++ c ∷ []) (d ∷ cs)
]

abbrev pub prepend : ℕ → Option (List ℕ × List ℕ) → Option (List ℕ × List ℕ)
prepend c none = none
prepend c (some (front, back)) = some (c ∷ front, back)

-- What stands before and behind the first such character.
abbrev pub split_at : ℕ → List ℕ → Option (List ℕ × List ℕ)
split_at b [] = none
split_at b (c ∷ cs) =
    let later = prepend c (split_at b cs) in if c == b then some ([], cs) else later

abbrev pub same : List ℕ → List ℕ → Bool
same [] [] = true
same [] (d ∷ ds) = false
same (c ∷ cs) [] = false
same (c ∷ cs) (d ∷ ds) = c == d && same cs ds

abbrev pub check_words : List ℕ → Option (List ℕ × List ℕ) → Option (List ℕ)
check_words method none = none
check_words method (some (target, version)) =
    if same method (codes "CONNECT") && same version (codes "HTTP/1.1") then some target else none

abbrev pub after_method : Option (List ℕ × List ℕ) → Option (List ℕ)
after_method none = none
after_method (some (method, rest)) = check_words method (split_at 32 rest)

-- The target of a CONNECT line.
abbrev pub read_target : List ℕ → Option (List ℕ)
read_target line = after_method (split_at 32 line)

-- The blank behind the colon belongs to neither.
abbrev pub trim_blank : List ℕ × List ℕ → List ℕ × List ℕ
trim_blank (name, []) = (name, [])
trim_blank (name, c ∷ cs) = if c == 32 then (name, cs) else (name, c ∷ cs)

abbrev pub Fields : Type 0
Fields = List (List ℕ × List ℕ)

abbrev pub cons_field : Option (List ℕ × List ℕ) → Option Fields → Option Fields
cons_field none fields = none
cons_field (some f) none = none
cons_field (some f) (some fields) = some (trim_blank f ∷ fields)

-- The fields up to the empty line.
abbrev pub read_fields : List (List ℕ) → Option Fields
read_fields [] = none
read_fields ([] ∷ rest) = some []
read_fields ((c ∷ cs) ∷ rest) = cons_field (split_at b':' (c ∷ cs)) (read_fields rest)

abbrev pub pair_up : Option (List ℕ) → Option Fields → Option (List ℕ × Fields)
pair_up none fields = none
pair_up (some target) none = none
pair_up (some target) (some fields) = some (target, fields)

abbrev pub read_lines : List (List ℕ) → Option (List ℕ × Fields)
read_lines [] = none
read_lines (first ∷ rest) = pair_up (read_target first) (read_fields rest)

-- The target and the fields of a CONNECT request.
abbrev pub read_request : List ℕ → Option (List ℕ × Fields)
read_request cs = read_lines (lines_from [] cs)

-- Texts without a character.
abbrev pub Lacks : ℕ → List ℕ → Type 0
Lacks b = All (λ c. (c == b) ≡ false)
