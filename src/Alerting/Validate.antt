-- ===== src/Alerting/Validate.antt =====
-- internal/alerting/validation.go: `ValidateRule`. What it takes from the standard library is an
-- argument: `url.Parse`, `net.ParseIP` and the address that `mail.ParseAddress` reads.
use wavecontrol.Prelude.{
  ℕ, ◌+◌, ◌*◌, Bool, true, false, ◌&&◌, ◌||◌, not, List, [], ◌∷◌, Option, none, some, ltb, leb,
  nat_beq, if◌then◌else◌, length, ◌==◌, Text, codes, text_beq, is_empty, to_lower, ltb_ℤ, ℤ, pos,
  trim_space, nat_eq, int_eq, text_eq,
}
use wavecontrol.Alerting.Webhook.{unsafe_webhook_ip, Url}
use wavecontrol.Alerting.Rule.{
  metric_signal_60ghz, metric_signal_5ghz, metric_signal_6ghz, metric_signal_ltu, metric_cpu,
  metric_temperature, metric_ram, metric_offline_duration, metric_capacity, metric_peer_count,
  metric_link_score, metric_interference, metric_chain_imbalance, metric_gps_sync, op_lt, op_lte,
  op_gt, op_gte, op_eq, op_ne, severity_auto, severity_info, severity_warning, severity_critical,
  member, normalize_rule, Floats, Rule,
}

pub record Parsers : Type 0 where
  pub parse_url : Text → Option Url
  pub parse_ip : Text → Option (List ℕ)
  pub parse_address : Text → Option Text

abbrev pub valid_metrics : List Text
valid_metrics =
    metric_signal_60ghz ∷ metric_signal_5ghz ∷ metric_signal_6ghz ∷ metric_signal_ltu ∷ metric_cpu
    ∷ metric_temperature ∷ metric_ram ∷ metric_offline_duration ∷ metric_capacity
    ∷ metric_peer_count ∷ metric_link_score ∷ metric_interference ∷ metric_chain_imbalance
    ∷ metric_gps_sync ∷ []

abbrev pub valid_operators : List Text
valid_operators = op_lt ∷ op_lte ∷ op_gt ∷ op_gte ∷ op_eq ∷ op_ne ∷ []

abbrev pub valid_roles : List Text
valid_roles = codes "all" ∷ codes "ap" ∷ codes "sta" ∷ []

abbrev pub valid_severities : List Text
valid_severities = severity_auto ∷ severity_info ∷ severity_warning ∷ severity_critical ∷ []

abbrev pub valid_channels : List Text
valid_channels = codes "email" ∷ codes "webhook" ∷ codes "zabbix" ∷ codes "sysmon" ∷ []

-- The errors, with the text that they quote.
pub data RuleError : Type 0 where
  rule_required : RuleError
  bad_name : RuleError
  threshold_not_finite : RuleError
  scope_id_forbidden : RuleError
  scope_id_required : Text → RuleError
  bad_scope : RuleError
  bad_target_role : RuleError
  unsupported_metric : Text → RuleError
  unsupported_operator : Text → RuleError
  bad_severity : RuleError
  bad_duration : RuleError
  bad_cooldown : RuleError
  unsupported_channel : Text → RuleError
  emails_required : RuleError
  bad_email : Text → RuleError
  webhook_required : RuleError
  bad_webhook : RuleError

-- `len([]rune(s))` of valid UTF-8: the bytes that are not continuations.
unfoldable pub rune_count : Text → ℕ
rune_count [] = 0
rune_count (c ∷ s) = (if leb 128 c && ltb c 192 then 0 else 1) + rune_count s

-- `if bad { return e }`
abbrev pub refuse : Bool → RuleError → Option RuleError
refuse bad e = if bad then some e else none

-- A check, followed by the rest of the checks.
infixr 3 ◌orelse◌
abbrev pub ◌orelse◌ : Option RuleError → Option RuleError → Option RuleError
some e orelse rest = some e
none orelse rest = rest

abbrev pub max_seconds : ℕ
max_seconds = 31 * 24 * 60 * 60

abbrev pub out_of_range : ℤ → Bool
out_of_range n = ltb_ℤ n (pos 0) || ltb_ℤ (pos max_seconds) n

abbrev pub is_positive_id : Option ℤ → Bool
is_positive_id none = false
is_positive_id (some id) = ltb_ℤ (pos 0) id

abbrev pub is_set {ℓ} : {A : Type ℓ} → Option A → Bool
is_set none = false
is_set (some a) = true

-- The channels are read until one is not supported.
unfoldable pub check_channels : List Text → Option RuleError
unfolding member
check_channels [] = none
check_channels (ch ∷ channels) =
    refuse (not (member ch valid_channels)) (unsupported_channel ch) orelse check_channels channels

module _ (p : Parsers) where
  -- `!strings.EqualFold(parsed.Address, strings.TrimSpace(address))`, on the parsed address.
  abbrev pub is_bad_address : Text → Option Text → Bool
  is_bad_address address none = true
  is_bad_address address (some parsed) = not (to_lower parsed == to_lower (trim_space address))

  unfoldable pub check_emails : List Text → Option RuleError
  check_emails [] = none
  check_emails (address ∷ emails) =
      refuse (is_bad_address address (p.parse_address address)) (bad_email address)
      orelse check_emails emails

  abbrev pub is_unsafe : Option (List ℕ) → Bool
  is_unsafe none = false
  is_unsafe (some ip) = unsafe_webhook_ip ip

  -- Whether `validateWebhookURL` has an error.
  abbrev pub refuses_url : Option Url → Bool
  refuses_url none = true
  refuses_url (some u) =
      not (u.scheme == codes "https") && not (u.scheme == codes "http")
      || (is_empty u.hostname || u.user)
      || is_unsafe (p.parse_ip u.hostname)

  unfoldable pub validate_webhook_url : Text → Bool
  unfolding text_beq
  validate_webhook_url raw = not (refuses_url (p.parse_url raw))

  module _ (fl : Floats) where
    unfoldable pub check_scope : Rule fl.Float → Option RuleError
    unfolding text_beq
    check_scope rule =
        if rule.scope == codes "all"
        then refuse (is_set rule.scope_id) scope_id_forbidden
        else if rule.scope == codes "site" || rule.scope == codes "device"
        then refuse (not (is_positive_id rule.scope_id)) (scope_id_required rule.scope)
        else some bad_scope

    -- That the loop has marked a channel is that the channel is among those of the rule, since the
    -- loop ends early only with an error.
    unfoldable pub check_mails : Rule fl.Float → Option RuleError
    unfolding member check_emails
    check_mails rule =
        let listed = check_emails rule.notify_emails in
        if member (codes "email") rule.notify_channels
        then refuse (nat_beq (length rule.notify_emails) 0) emails_required orelse listed
        else none

    unfoldable pub check_webhook : Rule fl.Float → Option RuleError
    unfolding member validate_webhook_url
    check_webhook rule =
        let url_check = refuse (not (validate_webhook_url rule.webhook_url)) bad_webhook in
        if member (codes "webhook") rule.notify_channels
        then refuse (is_empty rule.webhook_url) webhook_required orelse url_check
        else if not (is_empty rule.webhook_url)
        then url_check
        else none

    -- The checks on a rule that is normalized already.
    unfoldable pub check_rule : Rule fl.Float → Option RuleError
    unfolding text_beq member check_scope check_channels check_mails check_webhook
    check_rule rule =
        refuse (is_empty rule.name || ltb 100 (rune_count rule.name)) bad_name
        orelse refuse (not (fl.finite rule.threshold)) threshold_not_finite
        orelse check_scope rule
        orelse refuse (not (member rule.target_role valid_roles)) bad_target_role
        orelse refuse (not (member rule.metric valid_metrics)) (unsupported_metric rule.metric)
        orelse refuse (not (member rule.operator valid_operators))
            (unsupported_operator rule.operator)
        orelse refuse (not (member rule.severity valid_severities)) bad_severity
        orelse refuse (out_of_range rule.duration_seconds) bad_duration
        orelse refuse (out_of_range rule.cooldown_seconds) bad_cooldown
        orelse check_channels rule.notify_channels
        orelse check_mails rule
        orelse check_webhook rule

    -- The rule as it is left behind, and the error. A nil pointer is none.
    unfoldable pub validate_rule :
        Option (Rule fl.Float) → Option (Rule fl.Float) × Option RuleError
    validate_rule none = (none, some rule_required)
    validate_rule (some rule) = (some (normalize_rule rule), check_rule (normalize_rule rule))
