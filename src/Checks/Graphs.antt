-- ===== src/Checks/Graphs.antt =====
-- A node with a neighbour, as the backend describes it.
use hermes_hyperspacedb_prov.Prelude.{String, ◌≡◌, true, Option}
use hermes_hyperspacedb_prov.Capability.{Store, mint}
use hermes_hyperspacedb_prov.Value.{Value, str, int, list, dict, nil, cons, end, field}
use hermes_hyperspacedb_prov.Graph.{sanitize}
use hermes_hyperspacedb_prov.Graph.Raw.{is_clean, is_clean-sanitize}
use hermes_hyperspacedb_prov.Samples.{store}

abbrev node : Value
node = dict (
    field "id" (int 3) (
      field "children"
        (list (cons (dict (field "point_id" (int 4) (field "label" (str "leaf") end))) nil)) end))

abbrev mint_point : Value → Store → Option String × Store
mint_point v s = mint v "memory" "home" "s1" 5 "3" s

is_clean-sanitize_example : is_clean (sanitize mint_point node store).0 ≡ true
is_clean-sanitize_example = is_clean-sanitize mint_point node store
