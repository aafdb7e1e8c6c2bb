-- ===== src/Ratchet/SkippedKeys.antt =====
-- `skipped_keys: HashMap<(Vec<u8>, u32), Vec<u8>>` of src/ratchet/state.rs, which maps a public key
-- and a message number to a message key. Other modules use it through its laws.
use ghostcrypt_crypto_core.Common.{
  ℕ, ◌+◌, ◌≤◌, ◌≡◌, ◌↔◌, refl, Bytes, Bool, ◌&&◌, Option, none, some, nat_eqb, list_eqb,
  list_eqb_iff, pair_eqb, nat_eq, list_eq, pair_eq, if◌then◌else◌, arith,
}
use ghostcrypt_crypto_core.Common.Dict
use ghostcrypt_crypto_core.Common.Dict.{
  Dict, get-insert, get-remove, size-insert-le, size-remove-le, size-remove-lt,
}

abbrev pub SkippedKeys : Type 0
SkippedKeys = Dict (Bytes × ℕ) Bytes

unfoldable pub empty : SkippedKeys
empty = Dict.empty

unfoldable pub stored : SkippedKeys → Bytes → ℕ → Option Bytes
unfolding Dict.get
stored keys dh n = Dict.get keys (dh, n)

unfoldable pub store : SkippedKeys → Bytes → ℕ → Bytes → SkippedKeys
unfolding Dict.insert
store keys dh n mk = Dict.insert keys (dh, n) mk

unfoldable pub forget : SkippedKeys → Bytes → ℕ → SkippedKeys
unfolding Dict.remove
forget keys dh n = Dict.remove keys (dh, n)

unfoldable pub count : SkippedKeys → ℕ
unfolding Dict.size
count keys = Dict.size keys

unfoldable pub same_entry : Bytes → ℕ → Bytes → ℕ → Bool
same_entry a m b n = list_eqb a b && nat_eqb m n

pub same_entry_iff :
    (a : Bytes) (m : ℕ) (b : Bytes) (n : ℕ) → (same_entry a m b n ≡ Bool.true) ↔ ((a ≡ b) × (m ≡ n))
unfolding same_entry
same_entry_iff a m b n = ground (arith, list_eqb_iff a b)

pub stored-empty : (a : Bytes) (m : ℕ) → stored empty a m ≡ none
unfolding stored empty
stored-empty a m = refl

pub count-empty : count empty ≡ 0
unfolding count empty
count-empty = refl

pub stored-store :
    (keys : SkippedKeys) (a b : Bytes) (m n : ℕ) (mk : Bytes)
    → stored (store keys a m mk) b n ≡ (if same_entry a m b n then some mk else stored keys b n)
stored-store keys a b m n mk =
    unfold stored store same_entry pair_eqb in get-insert keys (a, m) (b, n) mk

pub stored-forget :
    (keys : SkippedKeys) (a b : Bytes) (m n : ℕ)
    → stored (forget keys a m) b n ≡ (if same_entry a m b n then none else stored keys b n)
stored-forget keys a b m n =
    unfold stored forget same_entry pair_eqb in get-remove keys (a, m) (b, n)

pub count-store :
    (keys : SkippedKeys) (a : Bytes) (m : ℕ) (mk : Bytes)
    → count (store keys a m mk) ≤ count keys + 1
unfolding count store
count-store keys a m mk = size-insert-le keys (a, m) mk

pub count-forget : (keys : SkippedKeys) (a : Bytes) (m : ℕ) → count (forget keys a m) ≤ count keys
unfolding count forget
count-forget keys a m = size-remove-le keys (a, m)

pub count-forget-stored :
    (keys : SkippedKeys) (a : Bytes) (m : ℕ) (mk : Bytes)
    → stored keys a m ≡ some mk
    → count (forget keys a m) + 1 ≤ count keys
unfolding count forget stored
count-forget-stored keys a m mk h = size-remove-lt keys (a, m) mk h
