-- ===== src/NodeInfo.antt =====
-- flmodules/src/nodeconfig.rs: the public information of a node, and the capabilities of
-- flmodules/src/lib.rs that it names.
pub mod Identity
pub mod Saved
use fledger.Prelude.{ℕ, Bool, false, String, Option, none, some, List, ◌==◌, if◌then◌else◌, length}
use fledger.NodeIds.{U256, from_bytes}

-- `modules` is the bit set of the capabilities.
pub record NodeInfo : Type 0 where
  pub name : String
  pub client : String
  pub pubkey : List ℕ
  pub modules : ℕ

-- The identifier of a node whose public key has 32 bytes.
unfoldable pub id_of : NodeInfo → U256
id_of ni = from_bytes ni.pubkey

-- `none` is the panic of `try_into().unwrap()` at a key of another length.
unfoldable pub get_id : NodeInfo → Option U256
unfolding id_of
get_id ni = if length ni.pubkey == 32 then some (id_of ni) else none

-- `PartialEq`: the identifier decides, whatever the other fields hold.
pub eq : NodeInfo → NodeInfo → Bool
eq a b = id_of a == id_of b

-- The information of the node itself, with its key pair.
pub record NodeConfig : Type 0 where
  pub info : NodeInfo
  pub keypair : List ℕ

-- The crate `ed25519_compact`: keys and signatures are read from bytes.
pub record Ed25519 : Type 1 where
  pub PublicKey : Type 0
  pub Signature : Type 0
  pub public_key_from_slice : List ℕ → Option PublicKey
  pub signature_from_slice : List ℕ → Option Signature
  pub verify_signature : PublicKey → List ℕ → Signature → Bool

-- `none` is the panic of `unwrap` at a key that cannot be read.
unfoldable pub verify : Ed25519 → NodeInfo → List ℕ → List ℕ → Option Bool
verify ed ni msg sig_bytes = elim (ed.public_key_from_slice ni.pubkey) [
  | none ↦ none
  | some pubkey ↦ elim (ed.signature_from_slice sig_bytes) [
    | none ↦ some false
    | some sig ↦ some (ed.verify_signature pubkey msg sig)
  ]
]
