-- ===== src/Ratchet/Header.antt =====
-- src/ratchet/header.rs: the header sent with each message.
use ghostcrypt_crypto_core.Common.{ℕ, Bytes, [], length, nat_eqb, if◌then◌else◌}
use ghostcrypt_crypto_core.Error.{Result, ok, panic, Fallible, value, failed}
use ghostcrypt_crypto_core.Crates.{Crates}

pub record MessageHeader : Type 0 where
  pub dh_public_key : Bytes
  pub message_number : ℕ
  pub previous_chain_length : ℕ

-- Result::unwrap_or_default on bytes
unwrap_or_default : Fallible Bytes → Bytes
unwrap_or_default (value b) = b
unwrap_or_default (failed e) = []

module _ (c : Crates) where
  unfoldable pub new : c.PublicKey → ℕ → ℕ → MessageHeader
  new dh_key msg_num prev_chain_len = record {
    dh_public_key = c.public_bytes dh_key;
    message_number = msg_num;
    previous_chain_length = prev_chain_len;
  }

  -- `copy_from_slice` into a `[u8; 32]` panics on any other length.
  unfoldable pub to_public_key : MessageHeader → Result c.PublicKey
  to_public_key header =
      if nat_eqb (length header.dh_public_key) 32
      then ok (c.public_from_bytes header.dh_public_key)
      else panic

  unfoldable pub to_bytes : MessageHeader → Bytes
  unfolding unwrap_or_default
  to_bytes header =
      unwrap_or_default
        (c.header_json header.dh_public_key header.message_number header.previous_chain_length)
