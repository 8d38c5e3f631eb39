-- ===== src/NodeInfo/Saved.antt =====
-- flmodules/src/nodeconfig.rs: configurations as texts, old versions included. The formats, the
-- crate `ed25519_compact` and the generator of names are parameters.
pub mod Versions
use text.Mathlib.Text.{◌==◌}
use fledger.Prelude.{
  ℕ, String, Bool, true, false, Option, none, some, List, [], ◌∷◌, if◌then◌else◌, ◌≡◌,
}
use fledger.NodeInfo.{NodeInfo, NodeConfig}
use fledger.NetworkWrapper.{Yaml}

pub data ConfigError : Type 0 where
  public_key_missing no_info decode_toml : ConfigError

-- A result, with the panic of `unwrap`.
pub data Loaded {ℓ} (A : Type ℓ) : Type ℓ where
  loaded : A → Loaded A
  failed : ConfigError → Loaded A
  panicked : Loaded A

pub data NodeInfoSave : Type 0 where
  node_info_v2 : NodeInfo → NodeInfoSave

pub data NodeConfigSave : Type 0 where
  node_config_v1 : NodeConfig → NodeConfigSave

pub record NodeInfoV1 : Type 0 where
  pub info : String
  pub client : String
  pub pubkey : List ℕ

pub record NodeInfoToml : Type 0 where
  pub info : String
  pub client : String
  pub pubkey : Option (List ℕ)

pub record NodeConfigToml : Type 0 where
  pub keypair : Option (List ℕ)
  pub our_node : Option NodeInfoToml

pub record Toml : Type 0 where
  pub v1 : Option NodeConfigToml

-- The texts that the crates read and write, the public key of a key pair's bytes, and what the
-- generators of names and key pairs gave. `modules_all` is the set of all capabilities.
pub record Env : Type 0 where
  pub info_yaml : Yaml NodeInfoSave
  pub config_yaml : Yaml NodeConfigSave
  pub info_json : String → Option NodeInfoV1
  pub info_toml : String → Option NodeInfoV1
  pub config_toml : String → Option Toml
  pub public_key : List ℕ → Option (List ℕ)
  pub generated : List ℕ
  pub generated_key : List ℕ
  pub name : String
  pub modules_all : ℕ

-- A generated key pair is read with its public key.
pub record Generates (env : Env) : Type 0 where
  pub own_key : env.public_key env.generated ≡ some env.generated_key

abbrev from_v1 : NodeInfoV1 → NodeInfo
from_v1 ni = record { name = ni.info; client = ni.client; pubkey = ni.pubkey; modules = 0 }

module _ (env : Env) where
  -- `NodeInfo::new`.
  unfoldable pub new_info : List ℕ → NodeInfo
  new_info pubkey = record {
    name = env.name;
    client = "libc";
    pubkey = pubkey;
    modules = env.modules_all;
  }

  unfoldable decode_v1 : String → Option NodeInfoV1
  decode_v1 text = elim (env.info_json text) [ some info ↦ some info | none ↦ env.info_toml text ]

  unfoldable pub decode_info : String → Loaded NodeInfo
  unfolding decode_v1
  decode_info text = elim (env.info_yaml.from_str text) [
    | some (node_info_v2 ni) ↦ loaded ni
    | none ↦ elim (decode_v1 text) [ none ↦ failed no_info | some ni ↦ loaded (from_v1 ni) ]
  ]

  -- `none` is the panic of `unwrap`.
  unfoldable pub encode_info : NodeInfo → Option String
  encode_info ni = env.info_yaml.to_string (node_info_v2 ni)

  -- `NodeConfig::new`, with the generated key pair.
  unfoldable pub new_config : NodeConfig
  unfolding new_info
  new_config = record { info = new_info env.generated_key; keypair = env.generated }

  -- `try_from`, where a public key may be missing.
  unfoldable pub try_from : NodeInfoToml → Loaded NodeInfo
  try_from nit = elim nit.pubkey [
    | none ↦ failed public_key_missing
    | some key ↦ loaded (record { name = nit.info; client = nit.client; pubkey = key; modules = 0 })
  ]

  unfoldable pub our_info : List ℕ → Option NodeInfoToml → Loaded NodeInfo
  unfolding new_info try_from
  our_info key none = loaded (new_info key)
  our_info key (some on) = try_from (record on { pubkey = some key })

  abbrev pub or_generated : Option (List ℕ) → List ℕ
  or_generated none = env.generated
  or_generated (some kp) = kp

  abbrev pub with_keypair : List ℕ → Loaded NodeInfo → Loaded NodeConfig
  with_keypair keypair (loaded info) = loaded (record { info = info; keypair = keypair })
  with_keypair keypair (failed e) = failed e
  with_keypair keypair panicked = panicked

  unfoldable pub from_config_toml : NodeConfigToml → Loaded NodeConfig
  unfolding our_info
  from_config_toml nct =
      let keypair = or_generated nct.keypair in
      elim (env.public_key keypair) [
        | none ↦ panicked
        | some key ↦ with_keypair keypair (our_info key nct.our_node)
      ]

  abbrev pub from_version : Option NodeConfigToml → Loaded NodeConfig
  from_version none = panicked
  from_version (some nct) = from_config_toml nct

  abbrev pub from_parsed : Option Toml → Loaded NodeConfig
  from_parsed none = failed decode_toml
  from_parsed (some t) = from_version t.v1

  unfoldable pub from_toml : String → Loaded NodeConfig
  unfolding new_config from_config_toml
  from_toml text = if text == "" then loaded new_config else from_parsed (env.config_toml text)

  unfoldable pub decode_config : String → Loaded NodeConfig
  unfolding from_toml
  decode_config text = elim (env.config_yaml.from_str text) [
    | some (node_config_v1 nc) ↦ loaded nc
    | none ↦ from_toml text
  ]

  -- `none` is the panic of `unwrap`.
  unfoldable pub encode_config : NodeConfig → Option String
  encode_config nc = env.config_yaml.to_string (node_config_v1 nc)
