-- ===== src/Database/Factory.antt =====
-- What the factory makes behaves as a map.
use my_codebase.Base.{ℕ, zero, suc, ◌≡◌, List}
use my_codebase.Configure.{done, exits, faults}
use my_codebase.InMemDb.{Index, find}
use my_codebase.StoreDb.{Store, Opened, ready, locked, aborts}
use my_codebase.Database.{AnyDatabase, create_database}
use my_codebase.Database.Calls.{DbOp, KeyMap, make_calls, Follows}

-- What the database of this type holds at the start.
abbrev pub stored : (k : Store) → k.World → Index → ℕ → KeyMap
stored k w index zero key = find key index
stored k w index (suc type) key = k.get w key

-- The factory makes a database on which all calls follow the map.
abbrev pub Makes : (k : Store) → Opened → k.World → Index → ℕ → List DbOp → Type 1
Makes k opened w index type ops =
    (o : AnyDatabase) × (create_database k opened w index type ≡ done o)
    × Follows o.kind (stored k w index type) ops (make_calls o.kind ops o.state)

-- What comes of each type, by how LevelDB opens.
abbrev pub Serves : (k : Store) → Opened → k.World → Index → ℕ → List DbOp → Type 1
Serves k opened w index zero ops = Makes k opened w index 0 ops
Serves k ready w index (suc zero) ops = Makes k ready w index 1 ops
Serves k locked w index (suc zero) ops = create_database k locked w index 1 ≡ faults
Serves k aborts w index (suc zero) ops = create_database k aborts w index 1 ≡ exits
Serves k opened w index (suc (suc type)) ops =
    create_database k opened w index (suc (suc type)) ≡ exits
