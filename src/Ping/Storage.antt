-- ===== src/Ping/Storage.antt =====
-- flmodules/src/ping/core.rs: what is known of each node that is pinged.
-- The methods of `PingStorage` are the functions of this module.
pub mod Countdown
pub mod Silence
use fledger.Prelude.{ℕ, List, [], ◌∷◌, ◌++◌, Option, none, some, leb, if◌then◌else◌, add_u32}
use fledger.Prelude.Maps.{Map, get, insert, remove, contains_key}
use fledger.NodeIds.{NodeId}

pub record PingConfig : Type 0 where
  pub interval : ℕ
  pub timeout : ℕ

abbrev pub default_config : PingConfig
default_config = record { interval = 5; timeout = 10 }

pub record PingStat : Type 0 where
  pub lastping : ℕ
  pub rx : ℕ
  pub tx : ℕ

pub record PingStorage : Type 0 where
  pub stats : Map PingStat
  pub ping : List NodeId
  pub failed : List NodeId
  pub config : PingConfig

abbrev pub new : PingConfig → PingStorage
new config = record { stats = []; ping = []; failed = []; config = config }

unfoldable pub new_node : PingStorage → NodeId → PingStorage
new_node s id = if contains_key s.stats id then s else record s {
  stats = insert id (record { lastping = 0; rx = 0; tx = 1 }) s.stats;
  ping = s.ping ++ id ∷ [];
}

pub pong : PingStorage → NodeId → PingStorage
unfolding new_node
pong s id = elim (get id s.stats) [
  | none ↦ new_node s id
  | some stat ↦ record s {
    stats = insert id (record stat { lastping = 0; rx = add_u32 stat.rx 1 }) (remove id s.stats);
  }
]

unfoldable pub remove_node : PingStorage → NodeId → PingStorage
remove_node s id = record s { stats = remove id s.stats; failed = s.failed ++ id ∷ [] }

-- The time after which a node has failed.
abbrev pub deadline : PingConfig → ℕ
deadline c = add_u32 c.timeout c.interval

-- One node in the loop of `tick_countdown`: its new entry, whether it has failed, and whether it is
-- to be pinged.
abbrev pub count_one : PingConfig → PingStat → PingStat
count_one c stat =
    let lastping = add_u32 stat.lastping 1 in
    if leb (deadline c) lastping
    then record stat { lastping = lastping }
    else if leb c.interval lastping
    then record stat { lastping = lastping; tx = add_u32 stat.tx 1 }
    else record stat { lastping = lastping }

-- The loop of `tick_countdown`: the entries, the nodes to ping, and those that have failed.
pub countdown : PingConfig → Map PingStat → Map PingStat × List NodeId × List NodeId
countdown c [] = ([], [], [])
countdown c ((id, stat) ∷ m) =
    let (stats, ping, failed) = countdown c m in
    let lastping = add_u32 stat.lastping 1 in
    if leb (deadline c) lastping
    then ((id, count_one c stat) ∷ stats, ping, id ∷ failed)
    else if leb c.interval lastping
    then ((id, count_one c stat) ∷ stats, id ∷ ping, failed)
    else ((id, count_one c stat) ∷ stats, ping, failed)

pub remove_nodes : PingStorage → List NodeId → PingStorage
unfolding remove_node
remove_nodes s [] = s
remove_nodes s (id ∷ ids) = remove_nodes (remove_node s id) ids

pub tick_countdown : PingStorage → PingStorage
unfolding countdown remove_nodes
tick_countdown s =
    let (stats, ping, failed) = countdown s.config s.stats in
    remove_nodes (record s { stats = stats; ping = s.ping ++ ping }) failed

pub tick : PingStorage → PingStorage
unfolding tick_countdown
tick s = tick_countdown (record s { ping = []; failed = [] })
