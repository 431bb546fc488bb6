-- ===== src/Net.antt =====
-- What the program takes from `std::net`, `std::io` and `std::time`: socket addresses, I/O errors,
-- and durations as nanoseconds.
use tls_proxy_tunnel.Base.{ℕ, ◌*◌, ◌≡◌, refl, ◌⊎◌, inl, inr, Bool, true, false, String}

pub data SocketAddr : Type 0 where
  v4 : ℕ → ℕ → SocketAddr
  v6 : ℕ → ℕ → SocketAddr

abbrev pub is_ipv4 : SocketAddr → Bool
is_ipv4 (v4 ip port) = true
is_ipv4 (v6 ip port) = false

abbrev pub is_ipv6 : SocketAddr → Bool
is_ipv6 (v4 ip port) = false
is_ipv6 (v6 ip port) = true

-- An error's kind, as far as the program looks at it.
pub data IoError : Type 0 where
  would_block : IoError
  other : String → IoError

pub data IoResult {ℓ} (A : Type ℓ) : Type ℓ where
  io_ok : A → IoResult A
  io_err : IoError → IoResult A

abbrev pub seconds : ℕ → ℕ
seconds n = n * 1_000_000_000

abbrev pub minutes : ℕ → ℕ
minutes n = seconds (n * 60)

pub IoResult-cases {ℓ} :
    {A : Type ℓ} (r : IoResult A) → ((a : A) × (r ≡ io_ok a)) ⊎ ((e : IoError) × (r ≡ io_err e))
IoResult-cases (io_ok a) = inl (a, refl)
IoResult-cases (io_err e) = inr (e, refl)
