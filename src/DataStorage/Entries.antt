-- ===== src/DataStorage/Entries.antt =====
-- flarch/src/data_storage.rs: what is read after it was written or removed.
use text.Mathlib.Text.{◌==◌}
use text.Mathlib.TextEquality.{eq_iff}
use fledger.Prelude.{
  String, false, none, some, [], ◌∷◌, ◌≡◌, ap, arith, inl, inr, if◌then◌else◌, Bool-cases,
}
use fledger.DataStorage.{Kvs, DataStorageTemp, find_entry, remove_entry, get, set, remove}

-- The entry under a key after another one, or the same, was taken out.
find_entry-remove_entry :
    (key other : String) (kvs : Kvs)
    → find_entry other (remove_entry key kvs)
      ≡ (if key == other then none else find_entry other kvs)
unfolding find_entry remove_entry
find_entry-remove_entry key other [] = ground arith
find_entry-remove_entry key other (e ∷ kvs) = elim (Bool-cases (e.0 == key)) [
  | inl same ↦
      let it = ap (λ k. k == other) ((eq_iff e.0 key).0 same) in
      ground (arith, same, it, find_entry-remove_entry key other kvs)
  | inr new ↦ elim (Bool-cases (key == other)) [
    | inl asked ↦
        let it = ap (λ k. e.0 == k) ((eq_iff key other).0 asked) in
        ground (arith, new, asked, it, find_entry-remove_entry key other kvs)
    | inr else_asked ↦ ground (arith, new, else_asked, find_entry-remove_entry key other kvs)
  ]
]

-- After `set`, the value is read under its key, and every other key reads as before.
pub get-set :
    (ds : DataStorageTemp) (key value other : String)
    → ds.is_locked ≡ false
    → get (set ds key value).0 other ≡ (if key == other then some value else get ds other)
unfolding get set find_entry
get-set ds key value other free = ground (arith, free, find_entry-remove_entry key other ds.kvs)

-- After `remove`, a key reads as the empty text, and every other key as before.
get-remove :
    (ds : DataStorageTemp) (key other : String)
    → ds.is_locked ≡ false
    → get (remove ds key).0 other ≡ (if key == other then some "" else get ds other)
unfolding get remove
get-remove ds key other free = ground (arith, free, find_entry-remove_entry key other ds.kvs)
