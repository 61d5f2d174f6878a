-- ===== src/Checks/Handles.antt =====
-- A store of one capability.
use hermes_hyperspacedb_prov.Prelude.{String, ◌≡◌, refl, List, [], ◌∷◌, arith, ◌≤◌}
use hermes_hyperspacedb_prov.Text
use hermes_hyperspacedb_prov.Value.{str, list, nil, cons, int, as_list}
use hermes_hyperspacedb_prov.Capability
use hermes_hyperspacedb_prov.Capability.{
  Store, granted, resolve_many, resolve_one, check_handles, mint, max_entries,
}
use hermes_hyperspacedb_prov.Capability.Bounds.{IsValid, length-mint}
use hermes_hyperspacedb_prov.Capability.Scope.{AreHandles, Backed, resolve_many-Backed}
use hermes_hyperspacedb_prov.Capability.Resolve.{resolve_one-mint}
use hermes_hyperspacedb_prov.Prelude.Lists.{length, any}
use hermes_hyperspacedb_prov.Samples.{store}

store-IsValid : IsValid store
unfolding Capability.find Text.is_empty
store-IsValid = (refl, refl, tt)

resolve_many-Backed_example :
    (hs : List String) × AreHandles (list (cons (str "pt_1") nil)) hs
    × Backed store "memory" "home" "s1" 5 hs (7 ∷ [])
    × (store ≡ store)
unfolding resolve_many check_handles as_list Text.is_empty any Capability.resolve_loop
    Capability.find
resolve_many-Backed_example =
    resolve_many-Backed (list (cons (str "pt_1") nil)) "memory" "home" "s1" 5 store store (7 ∷ [])
      refl

-- The store after a capability for point 9 is minted.
abbrev minted : Store
minted = (mint (int 9) "memory" "home" "s1" 5 "2" store).1

resolve_one-mint_example :
    resolve_one (str "hsdbh_2") (Text.strip "memory") "home" "s1" 5 minted ≡ (granted 9, minted)
unfolding mint Capability.point_slot Text.is_empty Text.strip Capability.issue
resolve_one-mint_example =
    resolve_one-mint (int 9) 9 "memory" "home" "s1" 5 "2" store minted "hsdbh_2" store-IsValid refl
      refl

length-mint_example : length (mint (int 9) "memory" "home" "s1" 5 "pt_2" store).1 ≤ max_entries
length-mint_example = length-mint (int 9) "memory" "home" "s1" 5 "pt_2" store (omega arith)
