-- ===== src/NodeInfo/Identity.antt =====
-- flmodules/src/nodeconfig.rs: what the equality of two nodes compares.
use fledger.Prelude.{ℕ, ◌<◌, ◌≡◌, ap, ◌∙◌, sym, true, List, All, ==_iff, ◌↔◌, length}
use fledger.NodeIds.{from_bytes, to_bytes}
use fledger.NodeIds.Bytes.{to_bytes-from_bytes}
use fledger.NodeInfo.{NodeInfo, id_of, eq}

-- A public key as the source has it once it is read: 32 bytes.
abbrev IsKey : List ℕ → Type 0
IsKey bs = All (λ b. b < 256) bs × (length bs ≡ 32)

-- Two nodes with keys of 32 bytes are equal exactly when their keys are.
pub eq_iff :
    (a b : NodeInfo) → IsKey a.pubkey → IsKey b.pubkey → (eq a b ≡ true) ↔ (a.pubkey ≡ b.pubkey)
unfolding eq id_of
eq_iff a b ka kb = (
  λ e.
      sym (to_bytes-from_bytes a.pubkey ka.0 ka.1)
      ∙ ap to_bytes ((==_iff (from_bytes a.pubkey) (from_bytes b.pubkey)).0 e)
      ∙ to_bytes-from_bytes b.pubkey kb.0 kb.1,
  λ e. (==_iff (from_bytes a.pubkey) (from_bytes b.pubkey)).1 (ap from_bytes e),
)
