-- ===== src/DataStorage.antt =====
-- flarch/src/data_storage.rs: `DataStorageTemp`, whose clones share one map of texts. A lock that is
-- held elsewhere is an error of every operation.
pub mod Entries
use text.Mathlib.Text.{◌==◌}
use fledger.Prelude.{
  String, Bool, true, false, not, Option, none, some, List, [], ◌∷◌, if◌then◌else◌, retain,
}

abbrev pub Kvs : Type 0
Kvs = List (String × String)

-- The map behind all clones.
pub record DataStorageTemp : Type 0 where
  pub kvs : Kvs
  pub is_locked : Bool

unfoldable pub find_entry : String → Kvs → Option String
find_entry key [] = none
find_entry key (e ∷ kvs) = if e.0 == key then some e.1 else find_entry key kvs

unfoldable pub remove_entry : String → Kvs → Kvs
remove_entry key kvs = retain (λ e. not (e.0 == key)) kvs

abbrev pub or_empty : Option String → String
or_empty none = ""
or_empty (some value) = value

-- `none` is an error; a missing key is the empty text.
unfoldable pub get : DataStorageTemp → String → Option String
unfolding find_entry
get ds key = if ds.is_locked then none else some (or_empty (find_entry key ds.kvs))

-- The storage afterwards, and whether the lock was free.
unfoldable pub set : DataStorageTemp → String → String → DataStorageTemp × Bool
unfolding remove_entry
set ds key value =
    if ds.is_locked
    then (ds, false)
    else (record ds { kvs = (key, value) ∷ remove_entry key ds.kvs }, true)

unfoldable pub remove : DataStorageTemp → String → DataStorageTemp × Bool
unfolding remove_entry
remove ds key =
    if ds.is_locked then (ds, false) else (record ds { kvs = remove_entry key ds.kvs }, true)
