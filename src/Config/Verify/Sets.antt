-- ===== src/Config/Verify/Sets.antt =====
-- config/loader.rs, `verify_config`: the checks of one server, and the set of the names that are used.
use tls_proxy_tunnel.Base.{
  ◌≡◌, refl, ◌↔◌, true, false, Option, none, some, List, [], ◌∷◌, ◌++◌, String, arith, contains,
  insert_set, contains-insert_set, contains-append, All, All-append, All-append_left,
  All-append_right, All-insert_set, Distinct, Apart, Apart-insert_set, Apart-insert_set_of, IsUnion,
}
use tls_proxy_tunnel.Base.Dict.{Dict, contains_key}
use tls_proxy_tunnel.Config.Types.{SniTarget, upstream_name, ServerConfig}
use tls_proxy_tunnel.Config.Error.{ok}
use tls_proxy_tunnel.Upstreams.Types.{Upstream}
use tls_proxy_tunnel.Config.Verify.{
  check_listens, insert_targets, sni_targets, insert_default, insert_used, check_used,
}

-- Every address that the servers listen on.
abbrev pub all_listens : List ServerConfig → List String
all_listens [] = []
all_listens (s ∷ rest) = s.listen ++ all_listens rest

abbrev pub option_list : Option String → List String
option_list none = []
option_list (some name) = name ∷ []

abbrev pub target_names : List SniTarget → List String
target_names [] = []
target_names (t ∷ ts) = upstream_name t ∷ target_names ts

-- The names that a server refers to: those of its SNI map if it has `tls: true`, and its default.
abbrev pub required : ServerConfig → List String
required s = target_names (sni_targets s.tls s.sni) ++ option_list s.default

abbrev pub all_required : List ServerConfig → List String
all_required [] = []
all_required (s ∷ rest) = required s ++ all_required rest

abbrev pub IsDefined : Dict Upstream → String → Type 0
IsDefined upstream key = contains_key upstream key ≡ true

pub check_listens_sound :
    (xs seen seen' : List String)
    → check_listens xs seen ≡ ok seen'
    → Distinct xs × Apart xs seen × IsUnion seen' xs seen
unfolding check_listens contains
check_listens_sound [] seen seen' h = (tt, tt, λ k. ground arith)
check_listens_sound (x ∷ xs) seen seen' h =
    let fresh : contains seen x ≡ false = ground arith in
    let (d, a, u) = check_listens_sound xs (insert_set x seen) seen' (ground arith) in
    let (absent, a') = Apart-insert_set xs x seen a in
    ((absent, d), (fresh, a'), λ k. ground (arith, u k, contains-insert_set x k seen))

pub check_listens_complete :
    (xs seen : List String)
    → Distinct xs
    → Apart xs seen
    → (seen' : List String) × (check_listens xs seen ≡ ok seen')
unfolding check_listens
check_listens_complete [] seen d a = (seen, refl)
check_listens_complete (x ∷ xs) seen (absent, d) (fresh, a) =
    let rest =
      check_listens_complete xs (insert_set x seen) d (Apart-insert_set_of xs x seen absent a) in
    (rest.0, rw (fresh) rest.1)

pub check_used_iff :
    (upstream : Dict Upstream) (used : List String)
    → (check_used upstream used ≡ ok tt) ↔ All (IsDefined upstream) used
unfolding check_used
check_used_iff upstream [] = (λ h. tt, λ h. refl)
check_used_iff upstream (k ∷ ks) =
    let ih = check_used_iff upstream ks in
    (λ h. (ground arith, ih.0 (ground arith)), λ h. rw h.0 (ih.1 h.1))

-- The set after a server has the server's names and those of before.
insert_targets-IsUnion :
    (ts : List SniTarget) (used : List String)
    → IsUnion (insert_targets ts used) (target_names ts) used
unfolding insert_targets contains
insert_targets-IsUnion [] used k = refl
insert_targets-IsUnion (t ∷ ts) used k = ground (
  arith,
  insert_targets-IsUnion ts (insert_set (upstream_name t) used) k,
  contains-insert_set (upstream_name t) k used,
)

insert_default-IsUnion :
    (d : Option String) (used : List String) → IsUnion (insert_default d used) (option_list d) used
unfolding insert_default contains
insert_default-IsUnion none used k = refl
insert_default-IsUnion (some name) used k = ground (arith, contains-insert_set name k used)

pub insert_used-IsUnion :
    (s : ServerConfig) (used : List String) → IsUnion (insert_used s used) (required s) used
unfolding insert_used
insert_used-IsUnion s used k = ground (
  arith,
  insert_default-IsUnion s.default (insert_targets (sni_targets s.tls s.sni) used) k,
  insert_targets-IsUnion (sni_targets s.tls s.sni) used k,
  contains-append (target_names (sni_targets s.tls s.sni)) (option_list s.default) k,
)

module _ (P : String → Type 0) where
  insert_targets-All :
      (ts : List SniTarget) (used : List String)
      → All P (insert_targets ts used) ↔ (All P (target_names ts) × All P used)
  unfolding insert_targets
  insert_targets-All [] used = (λ h. (tt, h), λ h. h.1)
  insert_targets-All (t ∷ ts) used =
      let ih = insert_targets-All ts (insert_set (upstream_name t) used) in
      let (into, out) = All-insert_set P (upstream_name t) used in
      (
        λ h. let (a, b) = ih.0 h in let (p, c) = out b in ((p, a), c),
        λ h. ih.1 (h.0.1, into h.0.0 h.1),
      )

  insert_default-All :
      (d : Option String) (used : List String)
      → All P (insert_default d used) ↔ (All P (option_list d) × All P used)
  unfolding insert_default
  insert_default-All none used = (λ h. (tt, h), λ h. h.1)
  insert_default-All (some name) used =
      let (into, out) = All-insert_set P name used in
      (λ h. let (p, c) = out h in ((p, tt), c), λ h. into h.0.0 h.1)

  pub insert_used-All :
      (s : ServerConfig) (used : List String)
      → All P (insert_used s used) ↔ (All P (required s) × All P used)
  unfolding insert_used
  insert_used-All s used =
      let ts = sni_targets s.tls s.sni in
      let inner = insert_targets-All ts used in
      let outer = insert_default-All s.default (insert_targets ts used) in
      (
        λ h.
            let (d, r) = outer.0 h in
            let (t, u) = inner.0 r in
            (All-append P (target_names ts) (option_list s.default) t d, u),
        λ h. outer.1 (
          All-append_right P (target_names ts) (option_list s.default) h.0,
          inner.1 (All-append_left P (target_names ts) (option_list s.default) h.0, h.1),
        ),
      )
