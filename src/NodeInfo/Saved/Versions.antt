-- ===== src/NodeInfo/Saved/Versions.antt =====
-- flmodules/src/nodeconfig.rs: what configurations are read as.
use text.Mathlib.Text.{◌==◌}
use fledger.Prelude.{
  ℕ, String, Option, none, some, List, ◌≡◌, ◌≢◌, inl, inr, arith, Option-cases, if_cases,
}
use fledger.NodeInfo.{NodeInfo, NodeConfig}
use fledger.NetworkWrapper.{RoundTrips}
use fledger.NodeInfo.Saved.{
  public_key_missing, Loaded, loaded, failed, panicked, node_info_v2, node_config_v1,
  NodeConfigToml, NodeInfoToml, Env, Generates, or_generated, with_keypair, new_info, new_config,
  try_from, our_info, from_config_toml, from_version, from_parsed, Toml, from_toml, decode_info,
  encode_info, decode_config, encode_config,
}

module _ (env : Env) where
  -- A node's information that was encoded is decoded as it was, the capabilities included, if YAML
  -- that was written is read back.
  decode_info-encode_info :
      RoundTrips env.info_yaml
      → (ni : NodeInfo) (text : String) → encode_info env ni ≡ some text
      → decode_info env text ≡ loaded ni
  unfolding decode_info encode_info
  decode_info-encode_info trips ni text e =
      ground (arith, trips.from_str-to_string (node_info_v2 ni) text e)

  -- A node's configuration that was encoded is decoded as it was, if YAML that was written is read
  -- back.
  decode_config-encode_config :
      RoundTrips env.config_yaml
      → (nc : NodeConfig) (text : String) → encode_config env nc ≡ some text
      → decode_config env text ≡ loaded nc
  unfolding decode_config encode_config
  decode_config-encode_config trips nc text e =
      ground (arith, trips.from_str-to_string (node_config_v1 nc) text e)

  -- The configuration has the public key of its key pair.
  abbrev pub HasOwnKey : Loaded NodeConfig → Type 0
  HasOwnKey (loaded nc) = env.public_key nc.keypair ≡ some nc.info.pubkey
  HasOwnKey (failed e) = e ≢ public_key_missing
  HasOwnKey panicked = Unit

  with_keypair-HasOwnKey :
      (kp key : List ℕ) (on : Option NodeInfoToml)
      → env.public_key kp ≡ some key
      → HasOwnKey (with_keypair env kp (our_info env key on))
  unfolding our_info try_from new_info
  with_keypair-HasOwnKey kp key none e = e
  with_keypair-HasOwnKey kp key (some on) e = e

  from_config_toml-HasOwnKey : (nct : NodeConfigToml) → HasOwnKey (from_config_toml env nct)
  unfolding from_config_toml
  from_config_toml-HasOwnKey nct =
      elim (Option-cases (env.public_key (or_generated env nct.keypair))) [
        | inl e ↦ rw (e, HasOwnKey) tt
        | inr (key, e) ↦
            rw (e, HasOwnKey)
              (with_keypair-HasOwnKey (or_generated env nct.keypair) key nct.our_node e)
      ]

  from_version-HasOwnKey : (v : Option NodeConfigToml) → HasOwnKey (from_version env v)
  from_version-HasOwnKey none = tt
  from_version-HasOwnKey (some nct) = from_config_toml-HasOwnKey nct

  from_parsed-HasOwnKey : (t : Option Toml) → HasOwnKey (from_parsed env t)
  from_parsed-HasOwnKey none = λ e. absurd (ground (arith, e))
  from_parsed-HasOwnKey (some t) = from_version-HasOwnKey t.v1

  -- A configuration that is read from an old file in the format TOML has the public key that belongs
  -- to its key pair, whatever public key the file holds, and a public key that is missing there is
  -- no error; so too where the file is empty or holds no key pair, if a generated key pair is read
  -- with its own public key.
  pub from_toml-HasOwnKey : Generates env → (text : String) → HasOwnKey (from_toml env text)
  unfolding from_toml new_config new_info
  from_toml-HasOwnKey gen text =
      if_cases HasOwnKey (text == "") _ _ (λ _. gen.own_key)
        (λ _. from_parsed-HasOwnKey (env.config_toml text))
