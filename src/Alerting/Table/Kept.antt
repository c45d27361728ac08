-- ===== src/Alerting/Table/Kept.antt =====
-- What loading the rules leaves behind.
use wavecontrol.Prelude.{
  Bool, true, false, ◌&&◌, List, [], ◌∷◌, map, ◌⊎◌, inl, inr, Option, none, some, ◌≡◌, refl, ap,
  subst, arith, Bool-cases, All, All-imp, ◌==◌, int_beq_iff, ℤ, nat_eq, int_eq, text_eq,
}
use wavecontrol.Alerting.Rule.{normalize_rule, Floats, Rule}
use wavecontrol.Alerting.Validate.{check_rule, Parsers, RuleError}
use wavecontrol.Alerting.Table.{
  scan_row, disable_row, disable_rows, row_error, sort_row, sort_rows, disable_invalid, load_rules,
  Row,
}

module _ (p : Parsers) (fl : Floats) where
  abbrev OneOf : ℤ → List ℤ → Type 0
  OneOf id [] = (true ≡ false)
  OneOf id (x ∷ xs) = (x ≡ id) ⊎ OneOf id xs

  -- A row that a load need not look at again once the rows of the given ids are disabled.
  abbrev IsSettled : List ℤ → Row fl.Float → Type 0
  IsSettled ids row =
      (row.columns.enabled ≡ false) ⊎ ((row_error p fl row ≡ none) ⊎ OneOf row.columns.id ids)

  IsSettled-disable_row :
      (id : ℤ) (ids : List ℤ) (row : Row fl.Float)
      → IsSettled (id ∷ ids) row
      → IsSettled ids (disable_row id row)
  IsSettled-disable_row id ids row s =
      elim (Bool-cases (row.columns.id == id && row.columns.enabled)) [
        | inl hit ↦ rw hit (inl refl)
        | inr miss ↦ rw miss (elim s [
          | inl off ↦ inl off
          | inr (inl valid) ↦ inr (inl valid)
          | inr (inr (inl same)) ↦ inl (ground (arith, int_beq_iff row.columns.id id, same, miss))
          | inr (inr (inr later)) ↦ inr (inr later)
        ])
      ]

  IsSettled-map :
      (id : ℤ) (ids : List ℤ) (rows : List (Row fl.Float))
      → All (IsSettled (id ∷ ids)) rows
      → All (IsSettled ids) (map (disable_row id) rows)
  IsSettled-map id ids [] s = tt
  IsSettled-map id ids (row ∷ rows) s =
      (IsSettled-disable_row id ids row s.0, IsSettled-map id ids rows s.1)

  IsSettled-disable_rows :
      (ids : List ℤ) (rows : List (Row fl.Float))
      → All (IsSettled ids) rows
      → All (IsSettled []) (disable_rows ids rows)
  unfolding disable_rows
  IsSettled-disable_rows [] rows s = s
  IsSettled-disable_rows (id ∷ ids) rows s =
      IsSettled-disable_rows ids (map (disable_row id) rows) (IsSettled-map id ids rows s)

  settled_row :
      (on : Bool) (e : Option RuleError) (rule : Rule fl.Float)
      (rest : List (Rule fl.Float) × List ℤ)
      → (on ≡ false) ⊎ ((e ≡ none) ⊎ (true ≡ false))
      → rest.1 ≡ []
      → (sort_row p fl on e rule rest).1 ≡ []
  settled_row false e rule rest s h = h
  settled_row true none rule rest s h = h
  settled_row true (some e) rule rest s h = ground arith

  settled_lem :
      (rows : List (Row fl.Float)) → All (IsSettled []) rows → (sort_rows p fl rows).1 ≡ []
  unfolding sort_rows
  settled_lem [] s = refl
  settled_lem (row ∷ rows) s =
      settled_row row.columns.enabled (row_error p fl row) (normalize_rule (scan_row row))
        (sort_rows p fl rows) s.0 (settled_lem rows s.1)

  weaken :
      (id : ℤ) (ids : List ℤ) (row : Row fl.Float) → IsSettled ids row → IsSettled (id ∷ ids) row
  weaken id ids row (inl off) = inl off
  weaken id ids row (inr (inl valid)) = inr (inl valid)
  weaken id ids row (inr (inr m)) = inr (inr (inr m))

  settle_row :
      (on : Bool) (e : Option RuleError) (row : Row fl.Float) (rows : List (Row fl.Float))
      (rest : List (Rule fl.Float) × List ℤ)
      → row.columns.enabled ≡ on
      → row_error p fl row ≡ e
      → All (IsSettled rest.1) rows
      → All (IsSettled (sort_row p fl on e (normalize_rule (scan_row row)) rest).1) (row ∷ rows)
  unfolding normalize_rule
  settle_row false e row rows rest off h s = (inl off, s)
  settle_row true none row rows rest on h s = (inr (inl h), s)
  settle_row true (some e) row rows rest on h s =
      (inr (inr (inl refl)), All-imp rows (weaken row.columns.id rest.1) s)

  sort_rows-IsSettled : (rows : List (Row fl.Float)) → All (IsSettled (sort_rows p fl rows).1) rows
  unfolding sort_rows
  sort_rows-IsSettled [] = tt
  sort_rows-IsSettled (row ∷ rows) =
      settle_row row.columns.enabled (row_error p fl row) row rows (sort_rows p fl rows) refl refl
        (sort_rows-IsSettled rows)

  abbrev pub IsAccepted : Rule fl.Float → Type 0
  IsAccepted rule = check_rule p fl rule ≡ none

  abbrev AllAccepted : Option (List (Rule fl.Float)) → Type 0
  AllAccepted none = Unit
  AllAccepted (some rules) = All IsAccepted rules

  accept_row :
      (on : Bool) (e : Option RuleError) (rule : Rule fl.Float)
      (rest : List (Rule fl.Float) × List ℤ)
      → check_rule p fl rule ≡ e
      → All IsAccepted rest.0
      → All IsAccepted (sort_row p fl on e rule rest).0
  accept_row false e rule rest h a = a
  accept_row true none rule rest h a = (h, a)
  accept_row true (some e) rule rest h a = a

  sort_rows-IsAccepted : (rows : List (Row fl.Float)) → All IsAccepted (sort_rows p fl rows).0
  unfolding sort_rows
  sort_rows-IsAccepted [] = tt
  sort_rows-IsAccepted (row ∷ rows) =
      accept_row row.columns.enabled (row_error p fl row) (normalize_rule (scan_row row))
        (sort_rows p fl rows) refl (sort_rows-IsAccepted rows)

  disable_invalid-IsSettled :
      (fails : Bool) (rows after : List (Row fl.Float)) (rules : List (Rule fl.Float))
      (sorted : List (Rule fl.Float) × List ℤ)
      → All IsAccepted sorted.0
      → All (IsSettled sorted.1) rows
      → disable_invalid p fl fails sorted rows ≡ (after, some rules)
      → All IsAccepted rules × All (IsSettled []) after
  disable_invalid-IsSettled fails rows after rules (ok, []) a s h =
      (subst AllAccepted (ap (λ r. r.1) h) a, subst (All (IsSettled [])) (ap (λ r. r.0) h) s)
  disable_invalid-IsSettled true rows after rules (ok, id ∷ ids) a s h = absurd cc
  disable_invalid-IsSettled false rows after rules (ok, id ∷ ids) a s h = (
    subst AllAccepted (ap (λ r. r.1) h) a,
    subst (All (IsSettled [])) (ap (λ r. r.0) h) (IsSettled-disable_rows (id ∷ ids) rows s),
  )

  unchanged_load :
      (sorted : List (Rule fl.Float) × List ℤ) (rows : List (Row fl.Float))
      → sorted.1 ≡ []
      → (disable_invalid p fl true sorted rows).0 ≡ rows
  unchanged_load (ok, []) rows h = refl
  unchanged_load (ok, id ∷ ids) rows h = refl

  -- After a load that succeeded every rule that it gave passes the validation, and the next load
  -- finds no row that it would have to disable, whatever the table held before.
  pub load_rules-IsSettled :
      (fails : Bool) (rows after : List (Row fl.Float)) (rules : List (Rule fl.Float))
      → load_rules p fl fails rows ≡ (after, some rules)
      → All IsAccepted rules
        × ((load_rules p fl true after).0 ≡ after)
        × ((sort_rows p fl after).1 ≡ [])
  unfolding load_rules
  load_rules-IsSettled fails rows after rules h =
      let r =
        disable_invalid-IsSettled fails rows after rules (sort_rows p fl rows)
          (sort_rows-IsAccepted rows) (sort_rows-IsSettled rows) h in
      let empty = settled_lem after r.1 in
      (r.0, unchanged_load (sort_rows p fl after) after empty, empty)
