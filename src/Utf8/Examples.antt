-- ===== src/Utf8/Examples.antt =====
-- Tests of the decoder: a name, a truncated text, an overlong form and a surrogate.
use tls_proxy_tunnel.Base.{◌≡◌, refl, none, [], ◌∷◌}
use tls_proxy_tunnel.Utf8.{from_utf8, from_utf8_lossy, replacement}

refuses_truncated : from_utf8 (0x61 ∷ 0xe2 ∷ 0x82 ∷ []) ≡ none
unfolding from_utf8
refuses_truncated = refl

lossy_truncated : from_utf8_lossy (0x61 ∷ 0xe2 ∷ 0x82 ∷ 0x41 ∷ []) ≡ 0x61 ∷ replacement ∷ 0x41 ∷ []
unfolding from_utf8_lossy
lossy_truncated = refl

lossy_surrogate :
    from_utf8_lossy (0xed ∷ 0xa0 ∷ 0x80 ∷ []) ≡ replacement ∷ replacement ∷ replacement ∷ []
unfolding from_utf8_lossy
lossy_surrogate = refl
