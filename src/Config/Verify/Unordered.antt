-- ===== src/Config/Verify/Unordered.antt =====
-- config/loader.rs, `verify_config`: the order in which the two `HashMap`s are walked does not
-- matter, except for which of several errors is reported.
use mathlib.Core.List.Permᴰ.{Permᴰ}
use tls_proxy_tunnel.Base.{
  ◌≡◌, refl, sym, ap, ◌∙◌, subst, List, [], ◌∷◌, ◌++◌, String, contains, All-weaken,
}
use tls_proxy_tunnel.Base.Dict.{Dict, keys, values}
use tls_proxy_tunnel.Base.Perms.{
  contains-Permᴰ, All-Permᴰ, Distinct-Permᴰ, gather, gather-Permᴰ, keys-Permᴰ, contains-keys,
}
use tls_proxy_tunnel.Config.Types.{ServerConfig, ParsedConfig}
use tls_proxy_tunnel.Config.Error.{ok}
use tls_proxy_tunnel.Config.Verify.{verify_config}
use tls_proxy_tunnel.Config.Verify.Accepts.{
  IsWellFormed, verify_config-IsWellFormed, verify_config_iff,
}
use tls_proxy_tunnel.Config.Verify.Sets.{all_listens, required, all_required, IsDefined}
use tls_proxy_tunnel.Config.Verify.Warns.{verify_config_warns}

all_listens-gather :
    (servers : Dict ServerConfig) → all_listens (values servers) ≡ gather (λ s. s.listen) servers
all_listens-gather [] = refl
all_listens-gather ((name, s) ∷ rest) = ap (λ ls. s.listen ++ ls) (all_listens-gather rest)

all_required-gather :
    (servers : Dict ServerConfig) → all_required (values servers) ≡ gather required servers
all_required-gather [] = refl
all_required-gather ((name, s) ∷ rest) = ap (λ ks. required s ++ ks) (all_required-gather rest)

-- The same configuration, read in another order.
pub record IsShuffled (c c' : ParsedConfig) : Type 0 where
  pub servers : Permᴰ c.servers c'.servers
  pub upstream : Permᴰ c.upstream c'.upstream

module _ (c c' : ParsedConfig) (shuffled : IsShuffled c c') where
  listens-Permᴰ : Permᴰ (all_listens (values c.servers)) (all_listens (values c'.servers))
  listens-Permᴰ =
      subst (λ ls. Permᴰ ls (all_listens (values c'.servers))) (sym (all_listens-gather c.servers))
        (subst (Permᴰ (gather (λ s. s.listen) c.servers)) (sym (all_listens-gather c'.servers))
          (gather-Permᴰ (λ s. s.listen) shuffled.servers))

  required-Permᴰ : Permᴰ (all_required (values c.servers)) (all_required (values c'.servers))
  required-Permᴰ =
      subst (λ ks. Permᴰ ks (all_required (values c'.servers)))
        (sym (all_required-gather c.servers))
        (subst (Permᴰ (gather required c.servers)) (sym (all_required-gather c'.servers))
          (gather-Permᴰ required shuffled.servers))

  same_keys : (k : String) → contains (keys c.upstream) k ≡ contains (keys c'.upstream) k
  same_keys k = contains-Permᴰ k (keys-Permᴰ shuffled.upstream)

  IsDefined-IsShuffled : (k : String) → IsDefined c.upstream k → IsDefined c'.upstream k
  IsDefined-IsShuffled k d =
      sym (contains-keys c'.upstream k) ∙ sym (same_keys k) ∙ contains-keys c.upstream k ∙ d

  IsWellFormed-IsShuffled : IsWellFormed c → IsWellFormed c'
  IsWellFormed-IsShuffled w = record {
    distinct = Distinct-Permᴰ listens-Permᴰ w.distinct;
    defined = All-Permᴰ (IsDefined c'.upstream) required-Permᴰ (
        All-weaken (IsDefined c.upstream) (IsDefined c'.upstream) IsDefined-IsShuffled
          (all_required (values c.servers)) w.defined);
  }

  -- If `verify_config` accepts a configuration, it accepts it also when the servers and the
  -- upstreams are walked in another order, with the same set of warnings.
  pub verify_config-IsShuffled :
      (warned : List String)
      → verify_config c ≡ ok (warned, c)
      → (warned' : List String) × (verify_config c' ≡ ok (warned', c'))
        × ((k : String) → contains warned' k ≡ contains warned k)
  verify_config-IsShuffled warned h =
      let w = (verify_config-IsWellFormed c (warned, c) h).0 in
      let (warned', h') = (verify_config_iff c').1 (IsWellFormed-IsShuffled w) in
      (
        warned',
        h',
        λ k.
            verify_config_warns c' warned' k h'
            ∙ rw (same_keys k, contains-Permᴰ k required-Permᴰ) refl
            ∙ sym (verify_config_warns c warned k h),
      )
