-- ===== src/Tools/Batch.antt =====
-- _provider.py: `_tool_batch`.
use hermes_hyperspacedb_prov.Prelude.{
  ℕ, suc, String, Bool, true, false, not, ◌&&◌, ◌||◌, none, some, List, [], ◌∷◌, ltb, ◌==◌,
  if◌then◌else◌,
}
use hermes_hyperspacedb_prov.Prelude.Lists.{length}
use hermes_hyperspacedb_prov.Text
use hermes_hyperspacedb_prov.Value.{
  Value, Fields, bool, int, str, list, dict, end, field, get, as_dict, as_list, of_list,
}
use hermes_hyperspacedb_prov.Errors.{Result, ok, err, provider, code_text}
use hermes_hyperspacedb_prov.World.{Env}
use hermes_hyperspacedb_prov.Exec.{Exec, pure, ◌>>=◌, attempt}
use hermes_hyperspacedb_prov.Ownership.{text_or}
use hermes_hyperspacedb_prov.Provider.{Provider}
use hermes_hyperspacedb_prov.Mutation.Event.{apply_memory_event}
use hermes_hyperspacedb_prov.Tools.{json_error, tool_json}

-- An entry of `results`: its index, whether it is ok, and its state or its error code.
pub record Item : Type 0 where
  pub index : ℕ
  pub ok : Bool
  pub outcome : String

abbrev pub refused : ℕ → String → Item
refused i code = record { index = i; ok = false; outcome = code }

abbrev pub item_value : Item → Value
item_value item = dict (
    field "index" (int item.index) (
      field "ok" (bool item.ok)
        (field (if item.ok then "state" else "code") (str item.outcome) end)))

unfoldable pub item_values : List Item → List Value
item_values [] = []
item_values (item ∷ items) = item_value item ∷ item_values items

-- `all(item.get("ok") is True for item in results)`
unfoldable pub all_ok : List Item → Bool
all_ok [] = true
all_ok (item ∷ items) = item.ok && all_ok items

-- The two `except` branches, and the append.
unfoldable pub item_of : ℕ → Result (Unit {0}) → Item
item_of i (ok u) = record { index = i; ok = true; outcome = "APPLIED" }
item_of i (err (provider e)) = refused i (code_text e.code)
item_of i (err _) = refused i "INTERNAL_ERROR"

unfoldable pub is_action : String → Bool
is_action action = action == "add" || action == "replace" || action == "remove"

-- `{"old_text": old_text} if old_text else None`
abbrev old_fields : String → Fields
old_fields old_text = if Text.is_empty old_text then end else field "old_text" (str old_text) end

module _ (env : Env) where
  -- One operation that is a dictionary.
  unfoldable pub apply_fields : ℕ → Fields → Exec Provider Item
  unfolding item_of is_action
  apply_fields i raw =
      let action = Text.strip (text_or env "action" "" raw) in
      let content = text_or env "content" "" raw in
      let old_text = text_or env "old_text" "" raw in
      if not (is_action action) then pure (refused i "INVALID_ARGUMENT") else do
        outcome ← attempt (apply_memory_event env action "memory" content (old_fields old_text))
        pure (item_of i outcome)

  -- One round of the loop of `_tool_batch`.
  unfoldable pub apply_operation : ℕ → Value → Exec Provider Item
  unfolding apply_fields
  apply_operation i raw = elim (as_dict raw) [
    | none ↦ pure (refused i "INVALID_ARGUMENT")
    | some fs ↦ apply_fields i fs
  ]

  -- `results`, from the index on
  unfoldable pub apply_operations : ℕ → List Value → Exec Provider (List Item)
  unfolding apply_operation
  apply_operations i [] = pure []
  apply_operations i (raw ∷ rest) = do
    item ← apply_operation i raw
    items ← apply_operations (suc i) rest
    pure (item ∷ items)

  unfoldable pub batch_answer : List Item → Exec Provider String
  unfolding all_ok item_values
  batch_answer items = tool_json env (
      field "ok" (bool (all_ok items)) (
        field "state" (str (if all_ok items then "COMPLETE" else "PARTIAL"))
          (field "results" (list (of_list (item_values items))) end)))

  -- `_tool_batch` for a list
  unfoldable pub batch_list : List Value → Exec Provider String
  unfolding apply_operations batch_answer
  batch_list [] = pure (json_error env "INVALID_ARGUMENT" "operations must be a non-empty list")
  batch_list (raw ∷ rest) =
      if ltb 16 (length (raw ∷ rest))
      then pure (json_error env "INVALID_ARGUMENT" "batch is limited to 16 operations")
      else do items ← apply_operations 0 (raw ∷ rest); batch_answer items

  -- `_tool_batch`
  unfoldable pub tool_batch : Fields → Exec Provider String
  unfolding batch_list
  tool_batch args = elim (as_list (get "operations" args)) [
    | none ↦ pure (json_error env "INVALID_ARGUMENT" "operations must be a non-empty list")
    | some operations ↦ batch_list operations
  ]
