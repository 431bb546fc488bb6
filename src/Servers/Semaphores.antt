-- ===== src/Servers/Semaphores.antt =====
-- `tokio::sync::Semaphore`, which is not part of the program: its operations, and what its
-- documentation says of them. The semaphores of a server stand in a list, and an
-- `Arc<Semaphore>` is a place in it.
use tls_proxy_tunnel.Base.{
  ℕ, zero, suc, ◌-◌, ◌^◌, ◌≤◌, ◌<◌, ◌≡◌, refl, Option, none, some, arith, leb, if◌then◌else◌,
}

pub record SemaphoreLib : Type 1 where
  pub Semaphore : Type 0
  pub max_permits : ℕ
  -- `none` is the panic on more than `MAX_PERMITS`.
  pub create : ℕ → Option Semaphore
  pub available_permits : Semaphore → ℕ
  pub try_acquire : Semaphore → Option Semaphore
  -- The drop of a permit.
  pub release : Semaphore → Semaphore
  pub available-create : (n : ℕ) {s : Semaphore} → create n ≡ some s → available_permits s ≡ n
  pub create_fits : (n : ℕ) → n ≤ max_permits → (s : Semaphore) × (create n ≡ some s)
  pub create_panics : (n : ℕ) → max_permits < n → create n ≡ none
  pub try_acquire_some :
      (s t : Semaphore) → try_acquire s ≡ some t → available_permits s ≡ suc (available_permits t)
  pub try_acquire_none : (s : Semaphore) → try_acquire s ≡ none → available_permits s ≡ 0
  pub available-release :
      (s : Semaphore) → available_permits (release s) ≡ suc (available_permits s)

-- A counter is such a semaphore.
abbrev pub counter_acquire : ℕ → Option ℕ
counter_acquire zero = none
counter_acquire (suc n) = some n

abbrev pub counter_create : ℕ → Option ℕ
counter_create n = if leb n (2 ^ 61 - 1) then some n else none

pub counter_available : (n : ℕ) {s : ℕ} → counter_create n ≡ some s → s ≡ n
counter_available n h = ground arith

pub counter_fits : (n : ℕ) → n ≤ 2 ^ 61 - 1 → (s : ℕ) × (counter_create n ≡ some s)
counter_fits n h = (n, ground arith)

pub counter_panics : (n : ℕ) → 2 ^ 61 - 1 < n → counter_create n ≡ none
counter_panics n h = ground arith

pub counter_some : (s t : ℕ) → counter_acquire s ≡ some t → s ≡ suc t
counter_some zero t h = cc
counter_some (suc s) t h = ground arith

pub counter_none : (s : ℕ) → counter_acquire s ≡ none → s ≡ 0
counter_none zero h = refl
counter_none (suc s) h = cc

abbrev pub counter : SemaphoreLib
counter = record {
  Semaphore = ℕ;
  max_permits = 2 ^ 61 - 1;
  create = counter_create;
  available_permits = λ n. n;
  try_acquire = counter_acquire;
  release = λ n. suc n;
  available-create = counter_available;
  create_fits = counter_fits;
  create_panics = counter_panics;
  try_acquire_some = counter_some;
  try_acquire_none = counter_none;
  available-release = λ n. refl;
}
