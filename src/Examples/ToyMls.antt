-- ===== src/Examples/ToyMls.antt =====
-- A stand-in for openmls, where a group is the number of its epoch: the hypotheses can be met.
use ghostcrypt_crypto_core.Common.{
  ℕ, suc, ◌≡◌, refl, sym, ap, Bytes, String, List, [], ◌∷◌, Option, none, some, nat_eqb, nat_eq,
  list_eq, string_eq, pair_eq, if◌then◌else◌,
}
use ghostcrypt_crypto_core.Common.Dict
use ghostcrypt_crypto_core.Common.Dict.{Dict}
use ghostcrypt_crypto_core.Error.{Fallible, value, failed}
use ghostcrypt_crypto_core.Mls.OpenMls.{
  OpenMls, Provider, ProcessedContent, application, staged_commit, proposal,
}
use ghostcrypt_crypto_core.Mls.Bundle.{GroupBundle, KeyPackageSecretBundle, MlsCrates}
use ghostcrypt_crypto_core.Mls.Laws.{MlsLaws, Persisted}
use ghostcrypt_crypto_core.Examples.ToyText.{
  toy_base64, toy_base64-Base64Laws, toy_codec, toy_codec-ReadsBack,
}

-- The key store of a group has one value, its epoch.
abbrev pub holding : ℕ → Dict Bytes Bytes
holding group = record { entries = ([], group ∷ []) ∷ [] }

-- A call that writes the group
abbrev put : {A : Type 0} → Fallible A → ℕ → Provider ℕ → Fallible A × Provider ℕ
put out group p = (out, record { values = holding group; rng = p.rng })

abbrev load_group : List (Bytes × Bytes) → Fallible (Option ℕ)
load_group [] = value none
load_group ((k, []) ∷ values) = failed "InvalidState"
load_group ((k, group ∷ rest) ∷ values) = value (some group)

abbrev take_message :
    ℕ → Bytes → Provider ℕ → Fallible (ProcessedContent (Unit {0}) Bytes × ℕ) × Provider ℕ
take_message group [] p = (failed "InvalidMessage", p)
take_message group (kind ∷ body) p =
    put
      (value (
        (if nat_eqb kind 0
            then staged_commit tt
            else if nat_eqb kind 1
            then application body
            else proposal body),
        group,
      ))
      group p

abbrev join : Bytes → Provider ℕ → Fallible ℕ × Provider ℕ
join [] p = (failed "NoMatchingKeyPackage", p)
join (group ∷ rest) p = put (value group) group p

abbrev read_signer : Bytes → Fallible ℕ
read_signer [] = failed "EOF"
read_signer (s ∷ rest) = value s

abbrev pub toy_openmls : OpenMls ℕ
toy_openmls = record {
  Signer = ℕ;
  CredentialWithKey = Bytes;
  KeyPackage = Bytes;
  KeyPackageIn = Bytes;
  GroupId = Unit;
  Group = ℕ;
  MessageOut = Bytes;
  MessageIn = Bytes;
  ProtocolMessage = Bytes;
  StagedCommit = Unit;
  Proposal = Bytes;
  Welcome = Bytes;
  StagedWelcome = Bytes;
  new_signer = λ suite r. (value r, suc r);
  store_signer = λ s p. (value tt, p);
  credential_with_key = λ identity s. identity;
  build_key_package = λ suite s c p. (value (s ∷ c), p);
  key_package_bytes = λ k. value k;
  key_package_in = λ b. value b;
  validate = λ k. value k;
  new_group = λ config s c p. put (value 0) 0 p;
  load = λ values id. load_group values.entries;
  group_id = λ g. tt;
  id_bytes = λ id. 7 ∷ [];
  epoch = λ g. g;
  add_members = λ g s k p. put (value (0 ∷ [], suc g ∷ k, g)) g p;
  remove_members = λ g s leaf p. put (value (0 ∷ leaf ∷ [], g)) g p;
  merge_pending_commit = λ g p. put (value (suc g)) (suc g) p;
  create_message = λ g s m p. put (value (1 ∷ m, g)) g p;
  message_bytes = λ m. value m;
  message_in = λ b. value b;
  protocol_message = λ m. value m;
  process_message = take_message;
  debug_content = λ c. "ProcessedMessageContent";
  merge_staged_commit = λ g commit p. put (value (suc g)) (suc g) p;
  store_pending_proposal = λ g q p. put (value g) g p;
  extract_welcome = λ m. some m;
  new_from_welcome = λ config w p. (value w, p);
  into_group = join;
  signer_codec = record { to_vec = λ s. value (s ∷ []); from_slice = read_signer };
  credential_codec = record { to_vec = λ c. value c; from_slice = λ b. value b };
  group_id_codec = record { to_vec = λ id. value []; from_slice = λ b. value tt };
}

abbrev pub stored : ℕ → Dict String String
stored group = record { entries = (toy_base64.encode [], toy_base64.encode (group ∷ [])) ∷ [] }

abbrev group_parts : GroupBundle → List (String × String) × (Bytes × (Bytes × Bytes))
group_parts b = (b.store.entries, (b.signer, (b.credential_with_key, b.group_id)))

abbrev make_group : List (String × String) × (Bytes × (Bytes × Bytes)) → GroupBundle
make_group p = record {
  store = record { entries = p.0 };
  signer = p.1.0;
  credential_with_key = p.1.1.0;
  group_id = p.1.1.1;
}

abbrev first_value : List (String × String) → Bytes
first_value [] = []
first_value ((k, v) ∷ entries) = elim (toy_base64.decode v) [ value b ↦ b | failed e ↦ [] ]

abbrev guess_group : GroupBundle → Bytes
guess_group b = elim (first_value b.store.entries) [
  | [] ↦ []
  | ◌∷◌ g rest ↦ elim b.signer [ [] ↦ [] | ◌∷◌ s rest' ↦ g ∷ s ∷ b.credential_with_key ]
]

abbrev rebuild_group : Bytes → GroupBundle
rebuild_group (g ∷ s ∷ c) = record {
  store = stored g;
  signer = s ∷ [];
  credential_with_key = c;
  group_id = [];
}
rebuild_group _ = record {
  store = Dict.empty;
  signer = [];
  credential_with_key = [];
  group_id = [];
}

abbrev secret_parts : KeyPackageSecretBundle → List (String × String) × (Bytes × Bytes)
secret_parts b = (b.store.entries, (b.signer, b.credential_with_key))

abbrev make_secret : List (String × String) × (Bytes × Bytes) → KeyPackageSecretBundle
make_secret p = record {
  store = record { entries = p.0 };
  signer = p.1.0;
  credential_with_key = p.1.1;
}

abbrev guess_secret : KeyPackageSecretBundle → Bytes
guess_secret b = elim b.signer [ [] ↦ [] | ◌∷◌ s rest ↦ s ∷ b.credential_with_key ]

abbrev rebuild_secret : Bytes → KeyPackageSecretBundle
rebuild_secret [] = record { store = Dict.empty; signer = []; credential_with_key = [] }
rebuild_secret (s ∷ c) = record { store = Dict.empty; signer = s ∷ []; credential_with_key = c }

abbrev pub toy_mls : MlsCrates ℕ
toy_mls = record {
  base64 = toy_base64;
  openmls = toy_openmls;
  bundle_codec = toy_codec group_parts make_group guess_group rebuild_group;
  secret_codec = toy_codec secret_parts make_secret guess_secret rebuild_secret;
}

kept :
    (g g' : ℕ) (r : ℕ) → g ≡ g' → Persisted toy_openmls g' (record { values = holding g; rng = r })
kept g g' r h = record { is_map = (tt, tt); stored = ap (λ n. value (some n)) h }

the_bytes : (b b' : Bytes) → value b ≡ value b' → b ≡ b'
the_bytes b b' h = cc

processed :
    (g g' : ℕ) (m : Bytes) (p : Provider ℕ) (content : ProcessedContent (Unit {0}) Bytes)
    → (take_message g m p).0 ≡ value (content, g')
    → Persisted toy_openmls g' (take_message g m p).1
processed g g' [] p content h = cc
processed g g' (kind ∷ body) p content h = kept g g' p.rng cc

joined :
    (staged : Bytes) (p : Provider ℕ) (g : ℕ)
    → (join staged p).0 ≡ value g
    → Persisted toy_openmls g (join staged p).1
joined [] p g h = cc
joined (n ∷ rest) p g h = kept n g p.rng cc

pub toy_mls-MlsLaws : MlsLaws toy_mls
toy_mls-MlsLaws = record {
  base64 = toy_base64-Base64Laws;
  reads_bundle = toy_codec-ReadsBack group_parts make_group guess_group rebuild_group λ b. refl;
  reads_secret = toy_codec-ReadsBack secret_parts make_secret guess_secret rebuild_secret λ b. refl;
  reads_signer =
      λ s bytes h. ap toy_openmls.signer_codec.from_slice (sym (the_bytes (s ∷ []) bytes h));
  reads_credential = λ c bytes h. sym h;
  reads_group_id = λ id bytes h. refl;
  stores_signer = λ s p k. k;
  creates = λ config s c p g k h. kept 0 g p.rng cc;
  adds = λ g g' s k p commit welcome q h. kept g g' p.rng cc;
  removes = λ g g' s leaf p commit q h. kept g g' p.rng cc;
  merges_pending = λ g g' p q h. kept (suc g) g' p.rng cc;
  creates_message = λ g g' s m p out q h. kept g g' p.rng cc;
  processes = λ g g' m p content q h. processed g g' m p content h;
  merges_staged = λ g g' commit p q h. kept (suc g) g' p.rng cc;
  stores_proposal = λ g g' q p k h. kept g g' p.rng cc;
  stages = λ config w p k. k;
  joins = λ staged p g k h. joined staged p g h;
}
