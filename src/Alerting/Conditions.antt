-- ===== src/Alerting/Conditions.antt =====
-- internal/alerting/manager.go: whether a rule applies to a device, its condition, and how severe
pub mod Cases
-- an alert is.
use wavecontrol.Prelude.{
  ℕ, Bool, true, false, ◌&&◌, ◌||◌, not, [], ◌∷◌, Option, none, some, ltb, if◌then◌else◌, ◌==◌,
  Text, codes, text_beq, to_lower, leb_ℤ, ℤ, pos, negsuc, trim_space, nat_eq, int_eq, text_eq,
}
use wavecontrol.Alerting.Rule.{
  metric_signal_60ghz, metric_signal_5ghz, metric_signal_6ghz, metric_signal_ltu, metric_cpu,
  metric_temperature, metric_ram, metric_offline_duration, metric_capacity, metric_link_score,
  metric_interference, metric_chain_imbalance, metric_gps_sync, op_lt, op_lte, op_gt, op_gte, op_eq,
  op_ne, severity_info, severity_warning, severity_critical, member, Floats, Rule,
}
use wavecontrol.Alerting.Metrics.{Device, Policy}

abbrev pub id_is : Option ℤ → ℤ → Bool
id_is none n = false
id_is (some id) n = n == id

-- The role of a device for the alerts, from the columns of `devices`.
unfoldable pub policy_role : Text → Bool → Bool → Text
unfolding text_beq
policy_role stored has_parent managed =
    let role = to_lower (trim_space stored) in
    if not (role == codes "ap") && not (role == codes "sta")
    then (if has_parent && not managed then codes "sta" else codes "ap")
    else role

unfoldable pub role_matches : Text → Text → Bool
unfolding text_beq
role_matches target_role device_role = target_role == codes "all" || target_role == device_role

abbrev pub is_silenced : Option ℕ → ℕ → Bool
is_silenced none now = false
is_silenced (some until) now = ltb now until

module _ (fl : Floats) where
  unfoldable pub scope_matches : Rule fl.Float → Device fl.Float → Bool
  unfolding text_beq
  scope_matches rule ds =
      if rule.scope == codes "all"
      then true
      else if rule.scope == codes "site"
      then id_is rule.scope_id ds.site_id
      else if rule.scope == codes "device"
      then id_is rule.scope_id ds.device_id
      else false

  unfoldable pub rule_applies : Rule fl.Float → Device fl.Float → Policy → ℕ → Bool
  unfolding scope_matches role_matches
  rule_applies rule ds policy now =
      if leb_ℤ ds.device_id (pos 0) || not (policy.device_id == ds.device_id)
      then false
      else if not (scope_matches rule ds) || not (role_matches rule.target_role policy.role)
      then false
      else if rule.require_alertable && not policy.alertable
      then false
      else not (is_silenced policy.silenced_until now)

  unfoldable pub evaluate_condition : Text → fl.Float → fl.Float → Bool
  unfolding text_beq
  evaluate_condition op value threshold =
      if op == op_lt
      then fl.lt value threshold
      else if op == op_lte
      then fl.le value threshold
      else if op == op_gt
      then fl.lt threshold value
      else if op == op_gte
      then fl.le threshold value
      else if op == op_eq
      then fl.eq value threshold
      else if op == op_ne
      then not (fl.eq value threshold)
      else false

  -- `value < critical` and `value < warning`, in dBm and per cent or Mbit/s.
  abbrev pub when_below : ℤ → ℤ → fl.Float → Text
  when_below critical warning value =
      if fl.lt value (fl.of_int critical)
      then severity_critical
      else if fl.lt value (fl.of_int warning)
      then severity_warning
      else severity_warning

  abbrev pub when_above : ℤ → ℤ → fl.Float → Text
  when_above critical warning value =
      if fl.lt (fl.of_int critical) value
      then severity_critical
      else if fl.lt (fl.of_int warning) value
      then severity_warning
      else severity_warning

  abbrev pub when_at_least : ℤ → ℤ → fl.Float → Text
  when_at_least critical warning value =
      if fl.le (fl.of_int critical) value
      then severity_critical
      else if fl.le (fl.of_int warning) value
      then severity_warning
      else severity_warning

  -- The severity where the rule leaves it to the value: the comments name the thresholds below 0.
  unfoldable pub auto_severity : Text → fl.Float → Text
  unfolding text_beq member
  auto_severity metric value =
      -- -80 and -70
      if member metric
        (metric_signal_60ghz ∷ metric_signal_5ghz ∷ metric_signal_6ghz ∷ metric_signal_ltu ∷ [])
      then when_below (negsuc 79) (negsuc 69) value
      else if metric == metric_cpu || metric == metric_ram
      then when_above (pos 95) (pos 85) value
      else if metric == metric_temperature
      then when_above (pos 85) (pos 75) value
      else if metric == metric_offline_duration
      then when_above (pos 3600) (pos 300) value
      else if metric == metric_capacity
      then when_below (pos 25) (pos 100) value
      else if metric == metric_link_score
      then when_below (pos 25) (pos 50) value
      else if metric == metric_interference
      then when_at_least (pos 50) (pos 25) value
      else if metric == metric_chain_imbalance
      then when_at_least (pos 12) (pos 6) value
      else if metric == metric_gps_sync && fl.lt value (fl.of_int (pos 1))
      then severity_critical
      else severity_warning

  unfoldable pub determine_severity : Rule fl.Float → fl.Float → Text
  unfolding text_beq member auto_severity
  determine_severity rule value =
      if member rule.severity (severity_info ∷ severity_warning ∷ severity_critical ∷ [])
      then rule.severity
      else auto_severity rule.metric value
