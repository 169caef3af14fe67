-- ===== src/Secrets/Jit.antt =====
-- core-secrets/src/jit.rs: secrets from a store, kept for a while.
pub mod Stale
use open_sesame.Prelude.{ℕ, ◌-◌, Option, none, some, [], ltb, if◌then◌else◌}
use open_sesame.Prelude.Text.{Text}
use open_sesame.Prelude.Maps.{Map, list_eq, get, insert}

-- A store as it answers over time, an implementation of the trait `SecretsStore`; `none` is an
-- error. A secret is its bytes.
abbrev pub SecretsStore : Type 0
SecretsStore = ℕ → Text → Option Text

pub record CachedSecret : Type 0 where
  pub value : Text
  pub fetched_at : ℕ

pub record JitDelivery : Type 0 where
  pub cache : Map Text CachedSecret
  pub ttl : ℕ

unfoldable pub new : ℕ → JitDelivery
new ttl = record { cache = []; ttl = ttl }

-- The instants of a call: when the cache is read, when the store answers, and when the answer is
-- kept; in nanoseconds.
pub record Instants : Type 0 where
  pub checked : ℕ
  pub answered : ℕ
  pub kept : ℕ

-- `cached.fetched_at.elapsed() < self.ttl`.
unfoldable pub cached_value : JitDelivery → Text → ℕ → Option Text
cached_value jit key now = elim (get jit.cache key) [
  | none ↦ none
  | some cached ↦ if ltb (now - cached.fetched_at) jit.ttl then some cached.value else none
]

unfoldable pub fetch : SecretsStore → Text → Instants → JitDelivery → Option Text × JitDelivery
fetch store key at jit = elim (store at.answered key) [
  | none ↦ (none, jit)
  | some value ↦ (
    some value,
    record jit { cache = insert key (record { value = value; fetched_at = at.kept }) jit.cache },
  )
]

unfoldable pub resolve : SecretsStore → Text → Instants → JitDelivery → Option Text × JitDelivery
unfolding cached_value fetch
resolve store key at jit = elim (cached_value jit key at.checked) [
  | some value ↦ (some value, jit)
  | none ↦ fetch store key at jit
]

unfoldable pub flush : JitDelivery → JitDelivery
flush jit = record jit { cache = [] }
