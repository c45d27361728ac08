-- ===== src/Alerting/Table/ReadBack.antt =====
-- What a rule that `CreateRule` accepted is when it is read again.
use wavecontrol.Prelude.{
  Bool, true, false, ◌&&◌, List, [], ◌∷◌, ◌++◌, map, ◌⊎◌, inl, inr, Option, none, some, ◌≡◌, refl,
  sym, ap, ◌∙◌, arith, Bool-cases, passes, All, ◌==◌, Text, int_beq_iff, ℤ, nat_eq, int_eq, text_eq,
}
use wavecontrol.Alerting.Rule.{normalize_rule, Floats, Rule}
use wavecontrol.Alerting.Rule.Normal.{normalize_rule_idem}
use wavecontrol.Alerting.Validate.{
  check_scope, check_mails, check_webhook, check_rule, Parsers, RuleError,
}
use wavecontrol.Alerting.Table.{
  nullif_empty, or_empty, to_row, scan_row, find_row, normalize_found, get_rule, disable_row,
  disable_rows, row_error, sort_row, sort_rows, disable_invalid, load_rules, reloaded, reload,
  create_checked, create_rule, Row, created, ReloadFaults,
}

or_empty-nullif : (s : Text) → or_empty (nullif_empty s) ≡ s
or_empty-nullif [] = refl
or_empty-nullif (c ∷ s) = refl

module _ {F : Type 0} where
  find_row-append :
      (id : ℤ) (rows : List (Row F)) (row : Row F)
      → find_row id rows ≡ none
      → row.columns.id ≡ id
      → find_row id (rows ++ row ∷ []) ≡ some row
  unfolding find_row
  find_row-append id [] row h e = ground (arith, int_beq_iff row.columns.id id)
  find_row-append id (r ∷ rows) row h e = elim (Bool-cases (r.columns.id == id)) [
    | inl same ↦ (let impossible : some r ≡ none = ground (arith, h, same) in absurd cc)
    | inr other ↦ rw other (find_row-append id rows row (rw other at h) e)
  ]

  normalize_rule-id :
      (id : ℤ) (rule : Rule F)
      → normalize_rule (record rule { id = id }) ≡ record (normalize_rule rule) { id = id }
  unfolding normalize_rule
  normalize_rule-id id rule = refl

  scan_row-to_row : (id : ℤ) (rule : Rule F) → scan_row (to_row id rule) ≡ record rule { id = id }
  scan_row-to_row id rule = rw (or_empty-nullif rule.webhook_url)

  -- What leaves the rows of an id, and the ids of the other rows, as they are.
  disable_other :
      (x id : ℤ) (row : Row F)
      → (x == id) ≡ false
      → (row.columns.id == id) ≡ true
      → disable_row x row ≡ row
  disable_other x id row other mine =
      let miss : (row.columns.id == x && row.columns.enabled) ≡ false = ground (
        arith,
        other,
        mine,
        int_beq_iff row.columns.id id,
        int_beq_iff row.columns.id x,
        int_beq_iff x id,
      ) in
      rw miss refl

  same_id : (x : ℤ) (row : Row F) → (disable_row x row).columns.id ≡ row.columns.id
  same_id x row = elim (Bool-cases (row.columns.id == x && row.columns.enabled)) [
    | inl e ↦ rw e refl
    | inr e ↦ rw e refl
  ]

  find_row-disable_row :
      (x id : ℤ) (rows : List (Row F))
      → (x == id) ≡ false
      → find_row id (map (disable_row x) rows) ≡ find_row id rows
  unfolding find_row
  find_row-disable_row x id [] other = refl
  find_row-disable_row x id (row ∷ rows) other = elim (Bool-cases (row.columns.id == id)) [
    | inl e ↦ rw (same_id x row, e) (ap some (disable_other x id row other e))
    | inr e ↦ rw (same_id x row, e) (find_row-disable_row x id rows other)
  ]

  find_row-disable_rows :
      (id : ℤ) (ids : List ℤ) (rows : List (Row F))
      → All (λ x. (x == id) ≡ false) ids
      → find_row id (disable_rows ids rows) ≡ find_row id rows
  unfolding disable_rows
  find_row-disable_rows id [] rows other = refl
  find_row-disable_rows id (x ∷ ids) rows other =
      find_row-disable_rows id ids (map (disable_row x) rows) other.1
      ∙ find_row-disable_row x id rows other.0

module _ (p : Parsers) (fl : Floats) where
  check_rule-id :
      (id : ℤ) (rule : Rule fl.Float)
      → check_rule p fl (record rule { id = id }) ≡ check_rule p fl rule
  unfolding check_rule check_scope check_mails check_webhook
  check_rule-id id rule = refl

  -- An id that no row has is not among those that are disabled.
  abbrev Spared : ℤ → List (Rule fl.Float) × List ℤ → Type 0
  Spared id sorted = All (λ x. (x == id) ≡ false) sorted.1

  sort_row-Spared :
      (id : ℤ) (on : Bool) (e : Option RuleError) (rule : Rule fl.Float)
      (rest : List (Rule fl.Float) × List ℤ)
      → ((rule.id == id) ≡ false) ⊎ (e ≡ none)
      → Spared id rest
      → Spared id (sort_row p fl on e rule rest)
  sort_row-Spared id false e rule rest h s = s
  sort_row-Spared id true none rule rest h s = s
  sort_row-Spared id true (some e) rule rest (inl h) s = (h, s)
  sort_row-Spared id true (some e) rule rest (inr h) s = absurd cc

  sort_rows-Spared :
      (id : ℤ) (rows : List (Row fl.Float)) (row : Row fl.Float)
      → find_row id rows ≡ none
      → row_error p fl row ≡ none
      → Spared id (sort_rows p fl (rows ++ row ∷ []))
  unfolding sort_rows find_row normalize_rule
  sort_rows-Spared id [] row h valid =
      sort_row-Spared id row.columns.enabled (row_error p fl row) (normalize_rule (scan_row row))
        ([], []) (inr valid) tt
  sort_rows-Spared id (r ∷ rows) row h valid = elim (Bool-cases (r.columns.id == id)) [
    | inl same ↦ (let impossible : some r ≡ none = ground (arith, h, same) in absurd cc)
    | inr other ↦
        sort_row-Spared id r.columns.enabled (row_error p fl r) (normalize_rule (scan_row r))
          (sort_rows p fl (rows ++ row ∷ [])) (inl other)
          (sort_rows-Spared id rows row (rw other at h) valid)
  ]

  find_row-disable_invalid :
      (id : ℤ) (fails later : Bool) (sorted : List (Rule fl.Float) × List ℤ)
      (rows : List (Row fl.Float))
      → Spared id sorted
      → find_row id (reloaded p fl later (disable_invalid p fl fails sorted rows)).0
        ≡ find_row id rows
  find_row-disable_invalid id fails later (rules, []) rows s = refl
  find_row-disable_invalid id true later (rules, x ∷ ids) rows s = refl
  find_row-disable_invalid id false later (rules, x ∷ ids) rows s =
      find_row-disable_rows id (x ∷ ids) rows s

  -- A reload does not touch the row of an id that it finds valid.
  find_row-reload :
      (f : ReloadFaults) (id : ℤ) (rows : List (Row fl.Float)) (row : Row fl.Float)
      → find_row id rows ≡ none
      → row.columns.id ≡ id
      → row_error p fl row ≡ none
      → find_row id (reload p fl f (rows ++ row ∷ [])).0 ≡ some row
  unfolding reload load_rules
  find_row-reload f id rows row fresh is valid =
      let there = find_row-append id rows row fresh is in
      elim (Bool-cases f.query) [
        | inl e ↦ rw e there
        | inr e ↦ rw e (
            find_row-disable_invalid id f.disabling f.later (sort_rows p fl (rows ++ row ∷ []))
              (rows ++ row ∷ []) (sort_rows-Spared id rows row fresh valid)
            ∙ there)
      ]

  created_ok :
      (f : ReloadFaults) (e : Option RuleError) (id : ℤ) (rule : Rule fl.Float)
      (rows after : List (Row fl.Float)) (ok : Bool)
      → create_checked p fl (some id) f e rule rows ≡ (after, created id ok)
      → (e ≡ none) × (after ≡ (reload p fl f (rows ++ to_row id rule ∷ [])).0)
  created_ok f (some e) id rule rows after ok h = absurd cc
  created_ok f none id rule rows after ok h = (refl, sym (ap (λ r. r.0) h))

  -- A rule that `CreateRule` gave an id that no row had is read back by `GetRule` as its normal form
  -- under that id, with all its fields and enabled as it was: the reload behind the insertion, which
  -- validates the table again and disables rows of it, leaves the new row alone, whether it succeeds
  -- or not.
  pub get_rule-create_rule :
      (f : ReloadFaults) (id : ℤ) (rule : Rule fl.Float) (rows after : List (Row fl.Float))
      (ok : Bool)
      → find_row id rows ≡ none
      → create_rule p fl (some id) f rule rows ≡ (after, created id ok)
      → get_rule id after ≡ some (record (normalize_rule rule) { id = id })
  unfolding create_rule get_rule
  get_rule-create_rule f id rule rows after ok fresh h =
      let valid = normalize_rule (normalize_rule rule) in
      let (passes, result) = created_ok f (check_rule p fl valid) id valid rows after ok h in
      let row = to_row id valid in
      let twice = ap normalize_rule (normalize_rule_idem rule) ∙ normalize_rule_idem rule in
      let scanned : normalize_rule (scan_row row) ≡ record (normalize_rule valid) { id = id } =
        ap normalize_rule (scan_row-to_row id valid) ∙ normalize_rule-id id valid in
      let same : normalize_rule valid ≡ valid = normalize_rule_idem (normalize_rule rule) in
      let accepted : row_error p fl row ≡ none =
        ap (check_rule p fl) scanned
        ∙ check_rule-id id (normalize_rule valid)
        ∙ ap (check_rule p fl) same
        ∙ passes in
      ap (λ t. normalize_found (find_row id t)) result
      ∙ ap normalize_found (find_row-reload f id rows row fresh refl accepted)
      ∙ ap some (scanned ∙ ap {A = Rule fl.Float} (λ r. record r { id = id }) twice)
