-- ===== src/Encoding/Serde.antt =====
-- serde_json::to_vec and serde_json::from_slice of one type.
use ghostcrypt_crypto_core.Common.{◌≡◌, Bytes}
use ghostcrypt_crypto_core.Error.{Fallible, value}

pub record Codec (A : Type 0) : Type 0 where
  pub to_vec : A → Fallible Bytes
  pub from_slice : Bytes → Fallible A

-- What was written is read back.
abbrev pub ReadsBack : {A : Type 0} → Codec A → Type 0
ReadsBack {A} codec =
    (a : A) (bytes : Bytes) → codec.to_vec a ≡ value bytes → codec.from_slice bytes ≡ value a
