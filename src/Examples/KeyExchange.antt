-- ===== src/Examples/KeyExchange.antt =====
-- X3DH on bytes at concrete keys.
use ghostcrypt_crypto_core.Common.{◌≡◌, refl, Bytes, [], Option, none, String}
use ghostcrypt_crypto_core.Error.{Outcome, ok}
use ghostcrypt_crypto_core.Kdf
use ghostcrypt_crypto_core.Identity
use ghostcrypt_crypto_core.X3dh
use ghostcrypt_crypto_core.Api.Store.{new_store}
use ghostcrypt_crypto_core.Api.State.{Statics}
use ghostcrypt_crypto_core.Api.Keys
use ghostcrypt_crypto_core.Api.Keys.{X3dhInitResult, x3dh_initiate, x3dh_respond}
use ghostcrypt_crypto_core.Api.KeyExchange.{x3dh_respond-x3dh_initiate}
use ghostcrypt_crypto_core.Examples.Toy.{toy, toy-X25519Laws, key_bytes}

abbrev device : Statics toy
device = record { sessions = new_store; mls_states = new_store; rng = 11 }

abbrev signature : Bytes
signature = toy.sign_with 4 (key_bytes 5)

abbrev secret_of : Outcome String X3dhInitResult → X3dhInitResult
secret_of (ok r) = r
secret_of _ = record { shared_secret = []; ephemeral_public = [] }

abbrev initiated : Option Bytes → Outcome String X3dhInitResult × Statics toy
initiated opk =
    x3dh_initiate toy (key_bytes 1) (key_bytes 2) (key_bytes 3) (key_bytes 4) (key_bytes 5)
      signature opk device

x3dh_initiate_runs : initiated none ≡ (ok (secret_of (initiated none).0), (initiated none).1)
unfolding x3dh_initiate Identity.from_bytes Identity.check_length Keys.bytes_to_public_key
    Keys.bytes_to_verifying_key X3dh.initiate X3dh.initiate_with X3dh.initiator_secrets
    Identity.verify Kdf.derive
x3dh_initiate_runs = refl

x3dh_respond-x3dh_initiate_example :
    x3dh_respond toy
      (key_bytes 3)
      (key_bytes 4)
      (key_bytes 5)
      (key_bytes 5)
      signature
      (key_bytes 1)
      (secret_of (initiated none).0).ephemeral_public
      device
    ≡ (ok (record { shared_secret = (secret_of (initiated none).0).shared_secret }), device)
x3dh_respond-x3dh_initiate_example =
    x3dh_respond-x3dh_initiate toy toy-X25519Laws (key_bytes 1) (key_bytes 2) (key_bytes 3)
      (key_bytes 4) (key_bytes 4) (key_bytes 5) signature device (initiated none).1 device
      (secret_of (initiated none).0) refl refl refl refl x3dh_initiate_runs
