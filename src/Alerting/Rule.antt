-- ===== src/Alerting/Rule.antt =====
-- internal/alerting/manager.go and validation.go: rules, their normal form and their validation.
pub mod Normal
use wavecontrol.Prelude.{
  Bool, false, ◌||◌, List, [], ◌∷◌, map, Option, if◌then◌else◌, ◌==◌, Text, codes, is_empty,
  to_lower, ℤ, trim_space, nat_eq, int_eq, text_eq,
}

-- The operations on float64 that the package uses: `finite` is false on NaN and the infinities.
pub record Floats : Type 1 where
  pub Float : Type 0
  pub lt : Float → Float → Bool
  pub le : Float → Float → Bool
  pub eq : Float → Float → Bool
  pub finite : Float → Bool
  pub of_int : ℤ → Float

abbrev pub metric_signal_60ghz : Text
metric_signal_60ghz = codes "signal_60ghz"

abbrev pub metric_signal_5ghz : Text
metric_signal_5ghz = codes "signal_5ghz"

abbrev pub metric_signal_6ghz : Text
metric_signal_6ghz = codes "signal_6ghz"

abbrev pub metric_signal_ltu : Text
metric_signal_ltu = codes "signal_ltu"

abbrev pub metric_cpu : Text
metric_cpu = codes "cpu"

abbrev pub metric_temperature : Text
metric_temperature = codes "temperature"

abbrev pub metric_ram : Text
metric_ram = codes "ram"

abbrev pub metric_offline_duration : Text
metric_offline_duration = codes "offline_duration"

abbrev pub metric_capacity : Text
metric_capacity = codes "capacity"

abbrev pub metric_peer_count : Text
metric_peer_count = codes "peer_count"

abbrev pub metric_link_score : Text
metric_link_score = codes "link_score"

abbrev pub metric_interference : Text
metric_interference = codes "interference"

abbrev pub metric_chain_imbalance : Text
metric_chain_imbalance = codes "chain_imbalance"

abbrev pub metric_gps_sync : Text
metric_gps_sync = codes "gps_sync"

abbrev pub op_lt : Text
op_lt = codes "lt"

abbrev pub op_lte : Text
op_lte = codes "lte"

abbrev pub op_gt : Text
op_gt = codes "gt"

abbrev pub op_gte : Text
op_gte = codes "gte"

abbrev pub op_eq : Text
op_eq = codes "eq"

abbrev pub op_ne : Text
op_ne = codes "ne"

abbrev pub severity_auto : Text
severity_auto = codes "auto"

abbrev pub severity_info : Text
severity_info = codes "info"

abbrev pub severity_warning : Text
severity_warning = codes "warning"

abbrev pub severity_critical : Text
severity_critical = codes "critical"

-- Without `CreatedAt`, which nothing here reads.
pub record Rule (F : Type 0) : Type 0 where
  pub id : ℤ
  pub name : Text
  pub enabled : Bool
  pub scope : Text
  pub scope_id : Option ℤ
  pub target_role : Text
  pub require_alertable : Bool
  pub metric : Text
  pub operator : Text
  pub threshold : F
  pub duration_seconds : ℤ
  pub severity : Text
  pub notify_channels : List Text
  pub notify_emails : List Text
  pub webhook_url : Text
  pub notify_recovery : Bool
  pub cooldown_seconds : ℤ
  pub created_by : ℤ

-- `if s == "" { s = d }`
abbrev pub or_default : Text → Text → Text
or_default [] d = d
or_default (c ∷ s) d = c ∷ s

unfoldable pub member : Text → List Text → Bool
member t [] = false
member t (s ∷ l) = s == t || member t l

-- The loop of `uniqueChannels`, with the set of the channels that have been seen.
unfoldable pub unique_loop : List Text → List Text → List Text
unique_loop seen [] = []
unique_loop seen (raw ∷ channels) =
    let ch = to_lower (trim_space raw) in
    let skipped = unique_loop seen channels in
    let taken = ch ∷ unique_loop (ch ∷ seen) channels in
    if is_empty ch then skipped else if member ch seen then skipped else taken

unfoldable pub unique_channels : List Text → List Text
unique_channels channels = unique_loop [] channels

module _ {F : Type 0} where
  unfoldable pub normalize_rule : Rule F → Rule F
  normalize_rule rule = record rule {
    name = trim_space rule.name;
    scope = or_default (to_lower (trim_space rule.scope)) (codes "all");
    target_role = or_default (to_lower (trim_space rule.target_role)) (codes "all");
    metric = to_lower (trim_space rule.metric);
    operator = to_lower (trim_space rule.operator);
    severity = or_default (to_lower (trim_space rule.severity)) severity_auto;
    webhook_url = trim_space rule.webhook_url;
    notify_channels = unique_channels (map (λ ch. to_lower (trim_space ch)) rule.notify_channels);
    notify_emails = map trim_space rule.notify_emails;
  }
