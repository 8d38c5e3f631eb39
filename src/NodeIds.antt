-- ===== src/NodeIds.antt =====
-- flarch/src/nodeids.rs: the identifiers of nodes and events, and lists of them.
-- A `U256` wraps 32 bytes; here it is the number that they spell, the first byte the highest.
pub mod Laws
pub mod Bytes
pub mod Hex
use fledger.Prelude.{
  ℕ, zero, suc, ◌+◌, ◌*◌, ◌/◌, ◌%◌, ◌^◌, Bool, true, false, not, Option, none, some, List, [], ◌∷◌,
  ◌++◌, leb, ◌==◌, same, if◌then◌else◌, length, take, drop, get_elem?, erase_idx, any, all, retain,
  contains,
}

abbrev pub U256 : Type 0
U256 = ℕ

abbrev pub NodeId : Type 0
NodeId = U256

-- `From<[u8; 32]>`: the number that the bytes spell.
unfoldable pub from_bytes : List ℕ → U256
from_bytes [] = 0
from_bytes (b ∷ bs) = b * 256 ^ length bs + from_bytes bs

-- The lowest n bytes of a number, the highest first.
pub bytes : ℕ → U256 → List ℕ
bytes zero u = []
bytes (suc n) u = u / 256 ^ n % 256 ∷ bytes n u

pub to_bytes : U256 → List ℕ
unfolding bytes
to_bytes u = bytes 32 u

abbrev pub NodeIds : Type 0
NodeIds = List NodeId

-- `rnd i` is the result of the i-th call of `NodeID::rnd`.
abbrev pub new : (ℕ → NodeId) → ℕ → NodeIds
new rnd zero = []
new rnd (suc n) = new rnd n ++ rnd n ∷ []

abbrev pub empty : NodeIds
empty = []

-- `none` is the panic of a slice that is out of range.
unfoldable pub slice : NodeIds → ℕ → ℕ → Option NodeIds
slice ids from len = if leb (from + len) (length ids) then some (take len (drop from ids)) else none

-- The `while` of `remove`: `i` is the position that is looked at, `ret` what was taken out.
unfoldable pub remove_loop : ℕ → NodeIds → Bool → NodeIds → ℕ → NodeIds → NodeIds × NodeIds
remove_loop zero nodes exists ids i ret = (ids, ret)
remove_loop (suc fuel) nodes exists ids i ret = elim (get_elem? ids i) [
  | none ↦ (ids, ret)
  | some id ↦
      let taken = remove_loop fuel nodes exists (erase_idx ids i) i (ret ++ id ∷ []) in
      let kept = remove_loop fuel nodes exists ids (suc i) ret in
      if same (contains nodes id) exists then taken else kept
]

-- Each round passes one identifier, so there are as many rounds as identifiers. The result is the
-- list that is left and the list that was taken out.
unfoldable pub remove : NodeIds → NodeIds → Bool → NodeIds × NodeIds
unfolding remove_loop
remove ids nodes exists = remove_loop (length ids) nodes exists ids 0 []

pub remove_missing : NodeIds → NodeIds → NodeIds × NodeIds
remove_missing ids nodes = remove ids nodes false

unfoldable pub remove_existing : NodeIds → NodeIds → NodeIds × NodeIds
remove_existing ids nodes = remove ids nodes true

pub contains_any : NodeIds → NodeIds → Bool
contains_any ids other = any (λ node. any (λ node_other. node == node_other) other) ids

pub contains_all : NodeIds → NodeIds → Bool
contains_all ids other = all (λ node_other. contains ids node_other) other

unfoldable pub merge : NodeIds → NodeIds → NodeIds
merge ids other = ids ++ retain (λ n. not (contains ids n)) other
