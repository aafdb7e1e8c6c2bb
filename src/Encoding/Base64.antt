-- ===== src/Encoding/Base64.antt =====
-- The standard alphabet of the base64 crate: `BASE64_STANDARD` and `STANDARD`.
use ghostcrypt_crypto_core.Common.{◌≡◌, Bytes, String}
use ghostcrypt_crypto_core.Error.{Fallible, value}

pub record Base64 : Type 0 where
  pub encode : Bytes → String
  pub decode : String → Fallible Bytes

-- Decoding undoes encoding.
pub record Base64Laws (b : Base64) : Type 0 where
  pub decode-encode : (bytes : Bytes) → b.decode (b.encode bytes) ≡ value bytes
