-- ===== src/Alerting/Conditions/Cases.antt =====
-- What a rule that `ValidateRule` accepts means to `Evaluate`.
use wavecontrol.Prelude.{
  Bool, true, false, ◌||◌, not, List, [], ◌∷◌, ◌⊎◌, inl, inr, Option, none, some, ◌≡◌, refl, sym,
  ap, ◌∙◌, arith, if◌then◌else◌, Bool-cases, ◌==◌, Text, codes, text_beq, text_beq_iff, ℤ, nat_eq,
  int_eq, text_eq,
}
use wavecontrol.Alerting.Rule.{op_lt, op_lte, op_gt, op_gte, op_eq, op_ne, member, Floats, Rule}
use wavecontrol.Alerting.Validate.{
  valid_metrics, valid_operators, valid_roles, valid_severities, refuse, ◌orelse◌, out_of_range,
  is_positive_id, is_set, check_scope, check_rule, Parsers, RuleError, scope_id_forbidden,
  scope_id_required, bad_scope,
}
use wavecontrol.Alerting.Metrics.{Device}
use wavecontrol.Alerting.Conditions.{id_is, scope_matches, evaluate_condition}

pub data Relation : Type 0 where
  less less_or_equal greater greater_or_equal equal unequal : Relation

pub data Reach : Type 0 where
  everywhere : Reach
  at_site : ℤ → Reach
  on_device : ℤ → Reach

abbrev pub relation_name : Relation → Text
relation_name less = op_lt
relation_name less_or_equal = op_lte
relation_name greater = op_gt
relation_name greater_or_equal = op_gte
relation_name equal = op_eq
relation_name unequal = op_ne

abbrev pub scope_name : Reach → Text
scope_name everywhere = codes "all"
scope_name (at_site id) = codes "site"
scope_name (on_device id) = codes "device"

abbrev pub scope_id_of : Reach → Option ℤ
scope_id_of everywhere = none
scope_id_of (at_site id) = some id
scope_id_of (on_device id) = some id

abbrev pub is_reached : {F : Type 0} → Reach → Device F → Bool
is_reached everywhere ds = true
is_reached (at_site id) ds = ds.site_id == id
is_reached (on_device id) ds = ds.device_id == id

orelse_none : (a b : Option RuleError) → (a orelse b) ≡ none → (a ≡ none) × (b ≡ none)
orelse_none none b h = (refl, h)
orelse_none (some e) b h = absurd cc

refuse-none : (bad : Bool) (e : RuleError) → refuse bad e ≡ none → bad ≡ false
refuse-none true e h = absurd cc
refuse-none false e h = refl

not-false : (b : Bool) → not b ≡ false → b ≡ true
not-false b h = ground arith

member_cases :
    (t s : Text) (l : List Text) → member t (s ∷ l) ≡ true → (s ≡ t) ⊎ (member t l ≡ true)
unfolding member
member_cases t s l h = elim (Bool-cases (s == t)) [
  | inl same ↦ inl ((text_beq_iff s t).0 same)
  | inr other ↦ inr (rw other at h)
]

member_none : (t : Text) → member t [] ≡ true → true ≡ false
unfolding member
member_none t h = sym h

-- What the checks on an accepted rule have found.
pub record Accepted {F : Type 0} (finite : F → Bool) (rule : Rule F) : Type 0 where
  pub threshold : finite rule.threshold ≡ true
  pub role : member rule.target_role valid_roles ≡ true
  pub metric : member rule.metric valid_metrics ≡ true
  pub operator : member rule.operator valid_operators ≡ true
  pub severity : member rule.severity valid_severities ≡ true
  pub duration : out_of_range rule.duration_seconds ≡ false
  pub cooldown : out_of_range rule.cooldown_seconds ≡ false

module _ (p : Parsers) (fl : Floats) where
  abbrev pub relate : Relation → fl.Float → fl.Float → Bool
  relate less v t = fl.lt v t
  relate less_or_equal v t = fl.le v t
  relate greater v t = fl.lt t v
  relate greater_or_equal v t = fl.le t v
  relate equal v t = fl.eq v t
  relate unequal v t = not (fl.eq v t)

  relation_lem :
      (op : Text) → member op valid_operators ≡ true → (r : Relation) × (relation_name r ≡ op)
  relation_lem op h = elim (member_cases op op_lt _ h) [
    | inl e ↦ (less, e)
    | inr h ↦ elim (member_cases op op_lte _ h) [
      | inl e ↦ (less_or_equal, e)
      | inr h ↦ elim (member_cases op op_gt _ h) [
        | inl e ↦ (greater, e)
        | inr h ↦ elim (member_cases op op_gte _ h) [
          | inl e ↦ (greater_or_equal, e)
          | inr h ↦ elim (member_cases op op_eq _ h) [
            | inl e ↦ (equal, e)
            | inr h ↦ elim (member_cases op op_ne _ h) [
              | inl e ↦ (unequal, e)
              | inr h ↦ (let never = member_none op h in absurd cc)
            ]
          ]
        ]
      ]
    ]
  ]

  evaluate_condition-relation_name :
      (r : Relation) (value threshold : fl.Float)
      → evaluate_condition fl (relation_name r) value threshold ≡ relate r value threshold
  unfolding evaluate_condition text_beq
  evaluate_condition-relation_name less value threshold = refl
  evaluate_condition-relation_name less_or_equal value threshold = refl
  evaluate_condition-relation_name greater value threshold = refl
  evaluate_condition-relation_name greater_or_equal value threshold = refl
  evaluate_condition-relation_name equal value threshold = refl
  evaluate_condition-relation_name unequal value threshold = refl

  -- The scope and its id mean what is reached.
  abbrev Means : Reach → Text → Option ℤ → Type 0
  Means reach scope id = (scope_name reach ≡ scope) × (scope_id_of reach ≡ id)

  scope_reach :
      (all site device : Bool) (id : Option ℤ) (scope : Text)
      → (all ≡ true → codes "all" ≡ scope)
      → (site ≡ true → codes "site" ≡ scope)
      → (device ≡ true → codes "device" ≡ scope)
      → (if all
          then refuse (is_set id) scope_id_forbidden
          else if site || device
          then refuse (not (is_positive_id id)) (scope_id_required scope)
          else some bad_scope)
        ≡ none
      → (reach : Reach) × Means reach scope id
        × ((ds : Device fl.Float)
            → (if all
                then true
                else if site
                then id_is id ds.site_id
                else if device
                then id_is id ds.device_id
                else false)
              ≡ is_reached reach ds)
  scope_reach true site device none scope a s d h = (everywhere, (a refl, refl), λ ds. refl)
  scope_reach true site device (some id) scope a s d h = absurd cc
  scope_reach false true device none scope a s d h = absurd cc
  scope_reach false true device (some id) scope a s d h = (at_site id, (s refl, refl), λ ds. refl)
  scope_reach false false true none scope a s d h = absurd cc
  scope_reach false false true (some id) scope a s d h = (on_device id, (d refl, refl), λ ds. refl)
  scope_reach false false false id scope a s d h = absurd cc

  check_scope-reach :
      (rule : Rule fl.Float)
      → check_scope p fl rule ≡ none
      → (reach : Reach) × Means reach rule.scope rule.scope_id
        × ((ds : Device fl.Float) → scope_matches fl rule ds ≡ is_reached reach ds)
  unfolding check_scope scope_matches
  check_scope-reach rule h =
      scope_reach (rule.scope == codes "all") (rule.scope == codes "site")
        (rule.scope == codes "device") rule.scope_id rule.scope
        (λ e. sym ((text_beq_iff rule.scope (codes "all")).0 e))
        (λ e. sym ((text_beq_iff rule.scope (codes "site")).0 e))
        (λ e. sym ((text_beq_iff rule.scope (codes "device")).0 e)) h

  -- The checks of `ValidateRule` that a rule has passed.
  pub check_rule-Accepted :
      (rule : Rule fl.Float)
      → check_rule p fl rule ≡ none
      → (check_scope p fl rule ≡ none) × Accepted fl.finite rule
  unfolding check_rule
  check_rule-Accepted rule h =
      let (name, h) = orelse_none _ _ h in
      let (threshold, h) = orelse_none _ _ h in
      let (scope, h) = orelse_none _ _ h in
      let (role, h) = orelse_none _ _ h in
      let (metric, h) = orelse_none _ _ h in
      let (operator, h) = orelse_none _ _ h in
      let (severity, h) = orelse_none _ _ h in
      let (duration, h) = orelse_none _ _ h in
      let (cooldown, h) = orelse_none _ _ h in
      (
        scope,
        record {
          threshold = not-false (fl.finite rule.threshold) (refuse-none _ _ threshold);
          role = not-false (member rule.target_role valid_roles) (refuse-none _ _ role);
          metric = not-false (member rule.metric valid_metrics) (refuse-none _ _ metric);
          operator = not-false (member rule.operator valid_operators) (refuse-none _ _ operator);
          severity = not-false (member rule.severity valid_severities) (refuse-none _ _ severity);
          duration = refuse-none _ _ duration;
          cooldown = refuse-none _ _ cooldown;
        },
      )

  -- The operator of a rule that `ValidateRule` accepts is one of six, and the condition of the rule
  -- compares as that operator says: `lt` is below the threshold, and so on. Its scope is `all`,
  -- without an id, and it matches every device; or it is `site` or `device` with an id, and it
  -- matches exactly the devices of that site or the device with that id.
  pub check_rule-decides :
      (rule : Rule fl.Float)
      → check_rule p fl rule ≡ none
      → ((r : Relation) × (relation_name r ≡ rule.operator)
          × ((value threshold : fl.Float)
              → evaluate_condition fl rule.operator value threshold ≡ relate r value threshold))
        × ((reach : Reach) × (scope_name reach ≡ rule.scope)
            × (scope_id_of reach ≡ rule.scope_id)
            × ((ds : Device fl.Float) → scope_matches fl rule ds ≡ is_reached reach ds))
  check_rule-decides rule h =
      let (scope, ok) = check_rule-Accepted rule h in
      let (r, named) = relation_lem rule.operator ok.operator in
      let (reach, means, matches) = check_scope-reach rule scope in
      (
        (
          r,
          named,
          λ value threshold.
              (ap (λ op. evaluate_condition fl op value threshold) (sym named)
                ∙ evaluate_condition-relation_name r value threshold),
        ),
        (reach, means.0, means.1, matches),
      )
