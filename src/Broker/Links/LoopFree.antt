-- ===== src/Broker/Links/LoopFree.antt =====
-- flarch/src/broker.rs: a message that is forwarded from broker to broker never comes through the
-- same one twice.
use fledger.Prelude.{ℕ, true, List, [], ◌≡◌, ◌≤◌, contains, length, All, IsDistinct}
use fledger.Prelude.Maps.{keys}
use fledger.Broker.Subsystem.{BrokerId, Trail, Subsystem}
use fledger.Broker.Intern.{Intern}
use fledger.Broker.Intern.Trails.{Good}
use fledger.Broker.Links.{Brokers}

-- No broker stands twice on the trail, and all of them are known.
abbrev IsTrail : List BrokerId → Trail → Type 0
IsTrail known t = IsDistinct t × All (λ b. contains known b ≡ true) t

module _ {T : Type 0} (known : List BrokerId) where
  abbrev IsSafe : ℕ × Intern T T → Type 0
  IsSafe e = Good (IsTrail known) e.0 e.1

  record Safe (bs : Brokers T) : Type 0 where
    names : keys bs ≡ known
    brokers : All IsSafe bs

module _ {T : Type 0} where
  -- A trail that passed every broker at most once, so that it is no longer than there are brokers.
  abbrev pub IsLoopFree : Brokers T → Trail → Type 0
  IsLoopFree start t = IsDistinct t × (length t ≤ length start)

  -- Brokers that have their names and hold no forwarded message yet.
  abbrev pub IsStart : Brokers T → Type 0
  IsStart start = All (λ e. Good (λ t. t ≡ []) e.0 e.1) start
