-- ===== src/Alerting/Evaluate.antt =====
-- internal/alerting/manager.go: `Evaluate`, which goes through the rules and the devices.
pub mod Due
use wavecontrol.Prelude.{
  ℕ, List, [], ◌∷◌, ◌++◌, Option, none, some, if◌then◌else◌, leb_ℤ, ℤ, pos, nat_eq, int_eq, text_eq,
}
use wavecontrol.GoMap.{GoMap, insert, lookup}
use wavecontrol.Alerting.Rule.{Floats, Rule}
use wavecontrol.Alerting.Metrics.{get_metric_value, Device, Policy}
use wavecontrol.Alerting.Conditions.{rule_applies, evaluate_condition}
use wavecontrol.Alerting.States.{Key, AlertState, World, Faults, key_eq}
use wavecontrol.Alerting.Clearing.Runs.{acts, Act, rise, fall}

-- What comes from outside: the arithmetic of getMetricValue, and for each rule and device the
-- statements that fail and the id that a new alert is given.
pub record Outside (fl : Floats) : Type 0 where
  pub millions : ℤ → fl.Float
  pub seconds : ℕ → fl.Float
  pub faults : ℤ → ℤ → Faults
  pub ids : ℤ → ℤ → ℤ

module _ (fl : Floats) (o : Outside fl) (now : ℕ) where
  abbrev pub Calls : Type 0
  Calls = List (Act fl.Float fl.Float)

  abbrev pub fall_of : Rule fl.Float → ℤ → Act fl.Float fl.Float
  fall_of rule device_id = fall rule device_id (o.faults rule.id device_id).tx now

  -- By the value of the metric.
  abbrev pub judge : Rule fl.Float → Device fl.Float → Option fl.Float → Act fl.Float fl.Float
  judge rule ds none = fall_of rule ds.device_id
  judge rule ds (some value) =
      if evaluate_condition fl rule.operator value rule.threshold
      then rise rule ds.device_id (o.faults rule.id ds.device_id) value now
          (o.ids rule.id ds.device_id)
      else fall_of rule ds.device_id

  -- By the policy of the device.
  abbrev pub treat : Rule fl.Float → Device fl.Float → Option Policy → Act fl.Float fl.Float
  treat rule ds none = fall_of rule ds.device_id
  treat rule ds (some policy) =
      if rule_applies fl rule ds policy now
      then judge rule ds (get_metric_value fl o.millions o.seconds rule.metric ds policy now)
      else fall_of rule ds.device_id

  unfoldable pub plan_rule : GoMap ℤ Policy → Rule fl.Float → List (Device fl.Float) → Calls
  unfolding lookup get_metric_value rule_applies evaluate_condition
  plan_rule policies rule [] = []
  plan_rule policies rule (ds ∷ stats) =
      let rest = plan_rule policies rule stats in
      if leb_ℤ ds.device_id (pos 0)
      then rest
      else treat rule ds (lookup ds.device_id policies) ∷ rest

  unfoldable pub plan : GoMap ℤ Policy → List (Rule fl.Float) → List (Device fl.Float) → Calls
  unfolding plan_rule
  plan policies [] stats = []
  plan policies (rule ∷ rules) stats = plan_rule policies rule stats ++ plan policies rules stats

  unfoldable pub rules_by_id :
      GoMap ℤ (Rule fl.Float) → List (Rule fl.Float) → GoMap ℤ (Rule fl.Float)
  unfolding insert
  rules_by_id found [] = found
  rules_by_id found (rule ∷ rules) = rules_by_id (insert rule.id rule found) rules

  abbrev pub prune_lost : Option Policy → Rule fl.Float → ℤ → Calls → Calls
  prune_lost (some policy) rule device_id rest = rest
  prune_lost none rule device_id rest = fall_of rule device_id ∷ rest

  -- A state whose rule is not among the rules is stale, but stays, since the rule is not found.
  abbrev pub prune_state : GoMap ℤ Policy → ℤ → Option (Rule fl.Float) → Calls → Calls
  prune_state policies device_id none rest = rest
  prune_state policies device_id (some rule) rest =
      prune_lost (lookup device_id policies) rule device_id rest

  unfoldable pub prune :
      GoMap ℤ Policy → GoMap ℤ (Rule fl.Float) → GoMap Key (AlertState fl.Float) → Calls
  unfolding lookup
  prune policies by_id [] = []
  prune policies by_id ((k, s) ∷ states) =
      prune_state policies k.1 (lookup k.0 by_id) (prune policies by_id states)

  -- Without rules, and where the policies cannot be loaded, nothing is done.
  abbrev pub evaluate_with :
      Option (GoMap ℤ Policy)
      → List (Rule fl.Float)
      → List (Device fl.Float)
      → World fl.Float
      → World fl.Float
  evaluate_with policies [] stats w = w
  evaluate_with none (rule ∷ rules) stats w = w
  evaluate_with (some policies) (rule ∷ rules) stats w =
      let seen = acts (plan policies (rule ∷ rules) stats) w in
      acts (prune policies (rules_by_id [] (rule ∷ rules)) seen.states) seen

  unfoldable pub evaluate :
      Option (GoMap ℤ Policy)
      → List (Rule fl.Float)
      → List (Device fl.Float)
      → World fl.Float
      → World fl.Float
  unfolding acts plan prune rules_by_id
  evaluate policies rules stats w = evaluate_with policies rules stats w
