-- ===== src/Value/Laws.antt =====
-- Dictionaries: a lookup after an assignment.
use hermes_hyperspacedb_prov.Prelude.{String, ◌≡◌, true, arith, ◌==◌, eq_iff, if◌then◌else◌}
use hermes_hyperspacedb_prov.Value.{Value, Fields, end, field, get, set, has_key}

pub get-set :
    (j k : String) (v : Value) (fs : Fields) → get j (set k v fs) ≡ (if k == j then v else get j fs)
unfolding get set
get-set j k v end = ground arith
get-set j k v (field i w fs) = ground (arith, eq_iff i k, eq_iff k j, eq_iff i j, get-set j k v fs)

pub has_key-set :
    (j k : String) (v : Value) (fs : Fields)
    → has_key j (set k v fs) ≡ (if k == j then true else has_key j fs)
unfolding has_key set
has_key-set j k v end = ground arith
has_key-set j k v (field i w fs) =
    ground (arith, eq_iff i k, eq_iff k j, eq_iff i j, has_key-set j k v fs)
