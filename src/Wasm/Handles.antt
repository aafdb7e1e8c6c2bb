-- ===== src/Wasm/Handles.antt =====
-- The handles of src/wasm.rs: one counter for four stores.
use ghostcrypt_crypto_core.Common.{
  ℕ, ◌+◌, ◌≤◌, ◌<◌, ◌≡◌, refl, Option, none, some, List, [], ◌∷◌, length, nat_eqb, nat_eq,
  Bool-cases, inl, inr, ltb, Bytes, if◌then◌else◌, arith,
}
use ghostcrypt_crypto_core.Common.Dict
use ghostcrypt_crypto_core.Common.Dict.{Dict, get-insert, get-remove}
use ghostcrypt_crypto_core.Crates.{Crates}
use ghostcrypt_crypto_core.Ratchet.Chain.{u32_mod, u32_suc, u32_suc-small}
use ghostcrypt_crypto_core.Mls.Types.{MlsOps}
use ghostcrypt_crypto_core.Wasm.State.{WasmCrates, Instance, new_instance}
use ghostcrypt_crypto_core.Wasm.Moves.{
  Moves, drew, used_up, new_identity, new_pre_key, new_session, changed_session, new_group,
  removed_group,
}
use ghostcrypt_crypto_core.Wasm.Requests.{Request, serve, serve_all}
use ghostcrypt_crypto_core.Wasm.Steps.{serve-Moves}

abbrev present {ℓ} : {A : Type ℓ} → Option A → ℕ
present none = 0
present (some a) = 1

-- How many of the stores have this handle
unfoldable pub uses : {c : Crates} → Instance c → ℕ → ℕ
uses i handle =
    present (Dict.get i.identity_keys handle)
    + present (Dict.get i.spk_keys handle)
    + present (Dict.get i.sessions handle)
    + present (Dict.get i.mls_states handle)

-- A handle stands for at most one thing, and none from `next` on stands for any.
pub record Sound {c : Crates} (i : Instance c) : Type 0 where
  pub unique : (handle : ℕ) → uses i handle ≤ 1
  pub unused : (handle : ℕ) → i.next ≤ handle → uses i handle ≡ 0

present-insert :
    {A : Type 0} (d : Dict ℕ A) (k j : ℕ) (a : A)
    → present (Dict.get (Dict.insert d k a) j)
      ≤ present (Dict.get d j) + (if nat_eqb k j then 1 else 0)
present-insert d k j a = ground (arith, get-insert d k j a)

present-insert-old :
    {A : Type 0} (d : Dict ℕ A) (k j : ℕ) (a b : A)
    → Dict.get d k ≡ some b
    → present (Dict.get (Dict.insert d k a) j) ≡ present (Dict.get d j)
present-insert-old d k j a b h = ground (arith, get-insert d k j a)

present-remove :
    {A : Type 0} (d : Dict ℕ A) (k j : ℕ)
    → present (Dict.get (Dict.remove d k) j) ≤ present (Dict.get d j)
present-remove d k j = ground (arith, get-remove d k j)

module _ {c : Crates} (i i' : Instance c) (sound : Sound i) where
  same-Sound : i'.next ≡ i.next → ((handle : ℕ) → uses i' handle ≤ uses i handle) → Sound i'
  same-Sound n h = record {
    unique = λ handle. omega (arith, h handle, sound.unique handle);
    unused = λ handle le. omega (arith, h handle, sound.unused handle (omega arith));
  }

  more-Sound :
      i.next + 1 < u32_mod
      → i'.next ≡ u32_suc i.next
      → ((handle : ℕ) → uses i' handle ≤ uses i handle + (if nat_eqb i.next handle then 1 else 0))
      → Sound i'
  more-Sound room n h = record {
    unique = λ handle. ground (arith, h handle, sound.unique handle, sound.unused handle);
    unused =
        λ handle le. ground (arith, h handle, sound.unused handle, n, u32_suc-small i.next room);
  }

-- A handle with a group state was given out.
pub in_use-given :
    {c : Crates} (handle : ℕ) (i : Instance c) (state : Bytes)
    → Sound i
    → Dict.get i.mls_states handle ≡ some state
    → handle < i.next
unfolding uses
in_use-given handle i state s at = elim (Bool-cases (ltb handle i.next)) [
  | inl below ↦ ground arith
  | inr beyond ↦ ground (arith, s.unused handle (ground arith), at)
]

-- Removing a group state keeps the handles sound.
pub removed-Sound :
    {c : Crates} (handle : ℕ) (i : Instance c)
    → Sound i
    → Sound (record i { mls_states = Dict.remove i.mls_states handle })
unfolding uses
removed-Sound handle i s =
    same-Sound i (record i { mls_states = Dict.remove i.mls_states handle }) s refl
      (λ h. omega (arith, present-remove i.mls_states handle h))

module _ {c : Crates} (mls : MlsOps c.Rng) where
  -- One move keeps the handles sound, and uses up at most one.
  pub Moves-Sound :
      (i i' : Instance c)
      → Moves mls i i'
      → i.next + 1 < u32_mod
      → Sound i
      → Sound i' × (i'.next ≤ i.next + 1)
  unfolding uses
  Moves-Sound i i' (drew rng) room s = (same-Sound i i' s refl (λ h. omega arith), omega arith)
  Moves-Sound i i' (used_up rng) room s =
      (more-Sound i i' s room refl (λ h. omega arith), omega (arith, u32_suc-small i.next room))
  Moves-Sound i i' (new_identity rng kp) room s = (
    more-Sound i i' s room refl (λ h. omega (arith, present-insert i.identity_keys i.next h kp)),
    omega (arith, u32_suc-small i.next room),
  )
  Moves-Sound i i' (new_pre_key rng spk) room s = (
    more-Sound i i' s room refl (λ h. omega (arith, present-insert i.spk_keys i.next h spk)),
    omega (arith, u32_suc-small i.next room),
  )
  Moves-Sound i i' (new_session rng session free) room s = (
    more-Sound i i' s room refl (λ h. omega (arith, present-insert i.sessions i.next h session)),
    omega (arith, u32_suc-small i.next room),
  )
  Moves-Sound i i' (changed_session rng handle session session' borrowed free at) room s = (
    same-Sound i i' s refl
        (λ h. omega (arith, present-insert-old i.sessions handle h session' session at)),
    omega arith,
  )
  Moves-Sound i i' (new_group rng state wrote) room s = (
    more-Sound i i' s room refl (λ h. omega (arith, present-insert i.mls_states i.next h state)),
    omega (arith, u32_suc-small i.next room),
  )
  Moves-Sound i i' (removed_group handle) room s = (removed-Sound handle i s, omega arith)

new_instance-Sound : {c : Crates} (rng : c.Rng) → Sound (new_instance {c = c} rng)
unfolding uses Dict.get
new_instance-Sound rng = record { unique = λ handle. omega arith; unused = λ handle le. refl }

module _ (x : WasmCrates) (mls : MlsOps x.core.Rng) where
  serve_all-Sound-from :
      (requests : List Request) (i : Instance x.core)
      → i.next + length requests < u32_mod
      → Sound i
      → Sound (serve_all x mls requests i)
        × ((serve_all x mls requests i).next ≤ i.next + length requests)
  unfolding serve_all
  serve_all-Sound-from [] i room s = (s, omega arith)
  serve_all-Sound-from (request ∷ requests) i room s =
      let i' = serve x mls request i in
      let (s', le) = Moves-Sound mls i i' (serve-Moves x mls request i) (omega arith) s in
      let (s'', le') = serve_all-Sound-from requests i' (omega arith) s' in (s'', omega arith)

  -- The same of a new instance, whose counter is at 1
  pub serve_all-Counted :
      (requests : List Request) (rng : x.core.Rng)
      → 1 + length requests < u32_mod
      → Sound (serve_all x mls requests (new_instance rng))
        × ((serve_all x mls requests (new_instance rng)).next ≤ 1 + length requests)
  serve_all-Counted requests rng room =
      serve_all-Sound-from requests (new_instance rng) room (new_instance-Sound rng)

  -- After fewer than 2^32 - 1 calls of a new instance, whichever they are, a handle stands for at
  -- most one thing in all four stores, and none from the counter on stands for any.
  pub serve_all-Sound :
      (requests : List Request) (rng : x.core.Rng)
      → 1 + length requests < u32_mod
      → Sound (serve_all x mls requests (new_instance rng))
  serve_all-Sound requests rng room = (serve_all-Counted requests rng room).0
