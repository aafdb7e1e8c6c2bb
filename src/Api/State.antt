-- ===== src/Api/State.antt =====
-- The static variables of src/api.rs, with the random source of the process.
use ghostcrypt_crypto_core.Common.{Bytes}
use ghostcrypt_crypto_core.Exec.{Exec, Call, print_err}
use ghostcrypt_crypto_core.Crates.{Crates}
use ghostcrypt_crypto_core.Ratchet.State.{Session}
use ghostcrypt_crypto_core.Api.Store.{Store}

pub record Statics (c : Crates) : Type 0 where
  pub sessions : Store (Session c)
  pub mls_states : Store Bytes
  pub rng : c.Rng

module _ {c : Crates} where
  -- A call of the core that draws from the random source, with its error printed
  abbrev pub on_core {ℓ} : {A : Type ℓ} → Exec c.Rng A → Call (Statics c) A
  on_core m g = let (r, rng') = m g.rng in (print_err r, record g { rng = rng' })

  abbrev pub on_sessions {ℓ} : {A : Type ℓ} → Call (Store (Session c)) A → Call (Statics c) A
  on_sessions m g = let (r, s) = m g.sessions in (r, record g { sessions = s })

  abbrev pub on_mls_states {ℓ} : {A : Type ℓ} → Call (Store Bytes) A → Call (Statics c) A
  on_mls_states m g = let (r, s) = m g.mls_states in (r, record g { mls_states = s })
