-- ===== src/Alerting/Table.antt =====
-- internal/alerting/manager.go: the table `alert_rules` behind `CreateRule`, `GetRule`, `Reload` and
-- `loadRules`. A table is the list of its rows in the order of their ids. Whether a statement of SQL
-- fails, and the id that an insertion draws from its sequence, are arguments.
pub mod Kept
pub mod ReadBack
use wavecontrol.Prelude.{
  Bool, true, false, ◌&&◌, not, List, [], ◌∷◌, ◌++◌, map, Option, none, some, if◌then◌else◌, ◌==◌,
  Text, ℤ, nat_eq, int_eq, text_eq,
}
use wavecontrol.Alerting.Rule.{normalize_rule, Floats, Rule}
use wavecontrol.Alerting.Validate.{check_rule, Parsers, RuleError}

-- `webhook_url` is the one column besides `scope_id` that may be NULL.
pub record Row (F : Type 0) : Type 0 where
  pub columns : Rule F
  pub webhook : Option Text

-- `NULLIF(s, '')`
abbrev pub nullif_empty : Text → Option Text
nullif_empty [] = none
nullif_empty (c ∷ s) = some (c ∷ s)

abbrev pub or_empty : Option Text → Text
or_empty none = []
or_empty (some s) = s

module _ {F : Type 0} where
  abbrev pub to_row : ℤ → Rule F → Row F
  to_row id rule = record {
    columns = record rule { id = id; webhook_url = [] };
    webhook = nullif_empty rule.webhook_url;
  }

  -- What the scan of a row gives, before `normalizeRule`.
  abbrev pub scan_row : Row F → Rule F
  scan_row row = record row.columns { webhook_url = or_empty row.webhook }

  unfoldable pub find_row : ℤ → List (Row F) → Option (Row F)
  find_row id [] = none
  find_row id (row ∷ rows) = if row.columns.id == id then some row else find_row id rows

  abbrev pub normalize_found : Option (Row F) → Option (Rule F)
  normalize_found none = none
  normalize_found (some row) = some (normalize_rule (scan_row row))

  -- None stands for `ErrNotFound`; an error of the query itself leaves no rule either.
  unfoldable pub get_rule : ℤ → List (Row F) → Option (Rule F)
  unfolding find_row
  get_rule id rows = normalize_found (find_row id rows)

  -- `UPDATE alert_rules SET enabled = false ... WHERE id = $1 AND enabled = true`
  abbrev pub disable_row : ℤ → Row F → Row F
  disable_row id row =
      if row.columns.id == id && row.columns.enabled
      then record row { columns = record row.columns { enabled = false } }
      else row

  unfoldable pub disable_rows : List ℤ → List (Row F) → List (Row F)
  disable_rows [] rows = rows
  disable_rows (id ∷ ids) rows = disable_rows ids (map (disable_row id) rows)

-- The answer of `CreateRule`: the new id and whether the reload behind the insertion succeeded, or
-- the error and no id.
pub data Created : Type 0 where
  created : ℤ → Bool → Created
  invalid : RuleError → Created
  sql_failed : Created

-- What fails of a reload: the query of the rules, the transaction that disables the invalid ones, and
-- a step behind it.
pub record ReloadFaults : Type 0 where
  pub query : Bool
  pub disabling : Bool
  pub later : Bool

module _ (p : Parsers) (fl : Floats) where
  abbrev pub row_error : Row fl.Float → Option RuleError
  row_error row = check_rule p fl (normalize_rule (scan_row row))

  -- What the loop of `loadRules` does with one row; the query leaves out those that are disabled.
  abbrev pub sort_row :
      Bool
      → Option RuleError
      → Rule fl.Float
      → List (Rule fl.Float) × List ℤ
      → List (Rule fl.Float) × List ℤ
  sort_row false e rule rest = rest
  sort_row true none rule rest = (rule ∷ rest.0, rest.1)
  sort_row true (some e) rule rest = (rest.0, rule.id ∷ rest.1)

  unfoldable pub sort_rows : List (Row fl.Float) → List (Rule fl.Float) × List ℤ
  sort_rows [] = ([], [])
  sort_rows (row ∷ rows) =
      sort_row row.columns.enabled (row_error row) (normalize_rule (scan_row row)) (sort_rows rows)

  abbrev pub disable_invalid :
      Bool
      → List (Rule fl.Float) × List ℤ
      → List (Row fl.Float)
      → List (Row fl.Float) × Option (List (Rule fl.Float))
  disable_invalid fails (rules, []) rows = (rows, some rules)
  disable_invalid fails (rules, id ∷ ids) rows =
      if fails then (rows, none) else (disable_rows (id ∷ ids) rows, some rules)

  -- `fails`: whether the transaction that disables the invalid rules does not commit.
  unfoldable pub load_rules :
      Bool → List (Row fl.Float) → List (Row fl.Float) × Option (List (Rule fl.Float))
  unfolding sort_rows disable_rows
  load_rules fails rows = disable_invalid fails (sort_rows rows) rows

  abbrev pub reloaded :
      Bool → List (Row fl.Float) × Option (List (Rule fl.Float)) → List (Row fl.Float) × Bool
  reloaded later_fails (rows, none) = (rows, false)
  reloaded later_fails (rows, some rules) = (rows, not later_fails)

  -- `Reload`, with what it does to the table and whether it succeeds. It fails where the query of the
  -- rules does, where the invalid rules cannot be disabled, and where something behind `loadRules`
  -- does. What it puts in memory is left out.
  unfoldable pub reload : ReloadFaults → List (Row fl.Float) → List (Row fl.Float) × Bool
  unfolding load_rules
  reload f rows =
      let loaded = reloaded f.later (load_rules f.disabling rows) in
      if f.query then (rows, false) else loaded

  abbrev pub created_with : ℤ → List (Row fl.Float) × Bool → List (Row fl.Float) × Created
  created_with id (rows, ok) = (rows, created id ok)

  abbrev pub insert_rule :
      Option ℤ → ReloadFaults → Rule fl.Float → List (Row fl.Float) → List (Row fl.Float) × Created
  insert_rule none f rule rows = (rows, sql_failed)
  insert_rule (some id) f rule rows = created_with id (reload f (rows ++ to_row id rule ∷ []))

  abbrev pub create_checked :
      Option ℤ
      → ReloadFaults
      → Option RuleError
      → Rule fl.Float
      → List (Row fl.Float)
      → List (Row fl.Float) × Created
  create_checked drawn f (some e) rule rows = (rows, invalid e)
  create_checked drawn f none rule rows = insert_rule drawn f rule rows

  -- `drawn` is the id of the row, or none where the insertion fails. `ValidateRule` normalizes the
  -- rule that is normal already once more.
  unfoldable pub create_rule :
      Option ℤ → ReloadFaults → Rule fl.Float → List (Row fl.Float) → List (Row fl.Float) × Created
  unfolding check_rule reload
  create_rule drawn f rule rows =
      let valid = normalize_rule (normalize_rule rule) in
      create_checked drawn f (check_rule p fl valid) valid rows
