-- ===== src/Alerting/Examples.antt =====
-- Runs of the operations on alerts, and uses of their theorems.
mod Runs
use wavecontrol.Prelude.{
  ◌≤◌, Bool, true, false, ◌&&◌, List, [], ◌∷◌, map, Option, none, some, ◌≡◌, refl, ap, ◌∙◌, All,
  codes, text_beq, to_lower, leb_ℤ, ltb_ℤ, int_beq, ℤ, pos, negsuc, is_space, trim_left, trim_right,
  trim, trim_space, nat_eq, int_eq, text_eq,
}
use wavecontrol.Alerting.Rule.{member, unique_loop, unique_channels, normalize_rule, Floats, Rule}
use wavecontrol.Alerting.Rule.Normal.{normalize_rule_idem}
use wavecontrol.Alerting.Validate.{
  rune_count, check_channels, check_scope, check_mails, check_webhook, check_rule, Parsers,
}
use wavecontrol.GoMap.{insert, lookup, lookup-nil}
use wavecontrol.Alerting.Outbox.{
  is_trigger, sysmon, any, trigger_in_flight, is_claimable, first_claimable, claim_notification,
  active, AlertRow, Delivery, Tables,
}
use wavecontrol.Alerting.Lifecycle.{
  enqueue_trigger, enqueue_triggers, enqueue_recovery, recover_triggers, triggers_of,
  resolve_alert_tx, open_alert,
}
use wavecontrol.Alerting.Lifecycle.Sound.{closed_ok, attempts_ok}
use wavecontrol.Alerting.Lifecycle.Reach.{
  start, claim_step, State, claim, resolve, trigger, Run, stop, more,
}
use wavecontrol.Alerting.Lifecycle.Recovery.{has_recovery, has_left, resolve_alert_tx-has_recovery}
use wavecontrol.Alerting.Table.{
  to_row, find_row, get_rule, disable_row, disable_rows, sort_rows, load_rules, reload, create_rule,
  Row, created, ReloadFaults,
}
use wavecontrol.Alerting.Table.Kept.{IsAccepted, load_rules-IsSettled}
use wavecontrol.Alerting.Metrics.{chain_spread, Device}
use wavecontrol.Alerting.Metrics.Spread.{readings, depth_spread, chain_spread-readings}
use wavecontrol.Alerting.Conditions.{scope_matches, evaluate_condition}
use wavecontrol.Alerting.Conditions.Cases.{
  relation_name, scope_name, scope_id_of, is_reached, relate, check_rule-decides, Relation, Reach,
}
use wavecontrol.Alerting.States.{key_eq}
use wavecontrol.Alerting.Lifecycle.Queue.{IsFirst, taken, handed, claim_notification-IsFirst}
use wavecontrol.Alerting.Table.ReadBack.{get_rule-create_rule}
use wavecontrol.Alerting.Lifecycle.Tries.{tries, is_counted}
use wavecontrol.Alerting.Lifecycle.Tries.Bound.{Run-AreRows}

-- Whole numbers in place of floating point ones.
abbrev pub whole : Floats
whole = record {
  Float = ℤ;
  lt = ltb_ℤ;
  le = leb_ℤ;
  eq = int_beq;
  finite = λ n. true;
  of_int = λ n. n;
}

abbrev plain : Parsers
plain = record {
  parse_url = λ raw.
      some (record { scheme = codes "https"; hostname = codes "hooks.example"; user = false });
  parse_ip = λ host. none;
  parse_address = λ raw. some raw;
}

abbrev pub hot : Rule ℤ
hot = record {
  id = pos 0;
  name = codes " Hot CPU";
  enabled = true;
  scope = codes "Site";
  scope_id = some (pos 4);
  target_role = [];
  require_alertable = true;
  metric = codes "CPU";
  operator = codes "gt";
  threshold = pos 90;
  duration_seconds = pos 60;
  severity = [];
  notify_channels = codes "sysmon" ∷ codes " Sysmon" ∷ [];
  notify_emails = [];
  webhook_url = [];
  notify_recovery = true;
  cooldown_seconds = pos 300;
  created_by = pos 1;
}

hot_accepted : check_rule plain whole (normalize_rule hot) ≡ none
unfolding check_rule check_scope check_channels check_mails check_webhook member rune_count
    normalize_rule unique_channels unique_loop to_lower trim_space trim trim_left trim_right
    is_space text_beq
hot_accepted = refl

check_rule-decides_example :
    let rule = normalize_rule hot in
    ((r : Relation) × (relation_name r ≡ rule.operator)
      × ((value threshold : ℤ)
          → evaluate_condition whole rule.operator value threshold
            ≡ relate plain whole r value threshold))
    × ((reach : Reach) × (scope_name reach ≡ rule.scope)
        × (scope_id_of reach ≡ rule.scope_id)
        × ((ds : Device ℤ) → scope_matches whole rule ds ≡ is_reached reach ds))
check_rule-decides_example = check_rule-decides plain whole (normalize_rule hot) hot_accepted

abbrev stored : List (Row ℤ)
stored = to_row (pos 7) (normalize_rule (normalize_rule hot)) ∷ []

abbrev well : ReloadFaults
well = record { query = false; disabling = false; later = false }

hot_sound : check_rule plain whole (normalize_rule (normalize_rule hot)) ≡ none
hot_sound = ap (check_rule plain whole) (normalize_rule_idem hot) ∙ hot_accepted

hot_reloaded : reload plain whole well stored ≡ (stored, true)
unfolding reload load_rules sort_rows disable_rows check_rule check_scope check_channels check_mails
    check_webhook member rune_count normalize_rule unique_channels unique_loop to_lower trim_space
    trim trim_left trim_right is_space text_beq
hot_reloaded = refl

hot_created : create_rule plain whole (some (pos 7)) well hot [] ≡ (stored, created (pos 7) true)
unfolding create_rule
hot_created = rw (hot_sound, hot_reloaded)

get_rule-create_rule_example :
    get_rule (pos 7) stored ≡ some (record (normalize_rule hot) { id = pos 7 })
get_rule-create_rule_example =
    get_rule-create_rule plain whole well (pos 7) hot [] stored true (unfold find_row in refl)
      hot_created

-- A rule that came into the table without a name.
abbrev nameless : Row ℤ
nameless = to_row (pos 8) (record hot { name = [] })

nameless_load :
    load_rules plain whole false (nameless ∷ []) ≡ (disable_row (pos 8) nameless ∷ [], some [])
unfolding load_rules sort_rows disable_rows check_rule check_scope check_channels check_mails
    check_webhook member rune_count normalize_rule unique_channels unique_loop to_lower trim_space
    trim trim_left trim_right is_space text_beq
nameless_load = refl

load_rules-IsSettled_example :
    All (IsAccepted plain whole) []
    × ((load_rules plain whole true (disable_row (pos 8) nameless ∷ [])).0
        ≡ disable_row (pos 8) nameless ∷ [])
    × ((sort_rows plain whole (disable_row (pos 8) nameless ∷ [])).1 ≡ [])
load_rules-IsSettled_example =
    load_rules-IsSettled plain whole false (nameless ∷ []) (disable_row (pos 8) nameless ∷ []) []
      nameless_load

chain_spread-readings_example :
    chain_spread (negsuc 61 ∷ pos 0 ∷ negsuc 69 ∷ [])
    ≡ depth_spread (readings (negsuc 61 ∷ pos 0 ∷ negsuc 69 ∷ []))
chain_spread-readings_example = chain_spread-readings (negsuc 61 ∷ pos 0 ∷ negsuc 69 ∷ [])

abbrev alert : AlertRow
alert = record {
  rule_id = some (pos 7);
  device_id = pos 3;
  status = active;
  triggered_at = 100;
  notified_at = none;
  notify_error = none;
  recovery_notified_at = none;
  recovery_notify_error = none;
}

-- The alert is triggered, its trigger is claimed, and it is resolved meanwhile.
abbrev triggered_tables : Tables
triggered_tables = open_alert 100 (pos 1) alert true (sysmon ∷ []) start.tables

abbrev triggered_state : State
triggered_state = record { tables = triggered_tables; held = [] }

abbrev claimed_state : State
claimed_state = claim_step (claim_notification false true 100 triggered_tables) []

abbrev resolved_result : Option (Tables × Bool)
resolved_result = resolve_alert_tx false 160 (pos 1) (some true) claimed_state.tables

abbrev tables_of : Option (Tables × Bool) → Tables
tables_of none = start.tables
tables_of (some (t, queued)) = t

resolved_ok : resolved_result ≡ some (tables_of resolved_result, true)
unfolding resolve_alert_tx claim_notification is_claimable trigger_in_flight first_claimable
    open_alert enqueue_triggers enqueue_trigger enqueue_recovery recover_triggers triggers_of insert
    lookup text_beq
resolved_ok = refl

abbrev resolved_state : State
resolved_state = record { tables = tables_of resolved_result; held = claimed_state.held }

run : Run start resolved_state
run =
    more
      (more
        (more stop (trigger 100 (pos 1) alert true (sysmon ∷ []) (lookup-nil (pos 1)) refl refl))
        (claim false true 100 refl))
      (resolve 160 (pos 1) (some true) (tables_of resolved_result) true resolved_ok refl)

Run-AreRows_example :
    All
      (λ d.
        (closed_ok resolved_state.tables.alerts d ≡ true)
        × (attempts_ok d ≡ true)
        × (is_counted d ≡ true → tries d.id resolved_state.held ≤ 8))
      resolved_state.tables.outbox
Run-AreRows_example = Run-AreRows resolved_state run

claimed_found : lookup (pos 1) claimed_state.tables.alerts ≡ some alert
unfolding claim_notification is_claimable trigger_in_flight first_claimable open_alert
    enqueue_triggers enqueue_trigger insert lookup text_beq
claimed_found = refl

resolve_alert_tx-has_recovery_example :
    All
      (λ d.
        (int_beq d.alert_id (pos 1) && is_trigger d.event) ≡ true
        → has_left d ≡ true
        → has_recovery (pos 1) d.channel (tables_of resolved_result) ≡ true)
      claimed_state.tables.outbox
resolve_alert_tx-has_recovery_example =
    resolve_alert_tx-has_recovery 160 (pos 1) alert claimed_state.tables (tables_of resolved_result)
      true claimed_found refl resolved_ok

due : any (is_claimable true 100 triggered_tables) triggered_tables.outbox ≡ true
unfolding is_claimable trigger_in_flight open_alert enqueue_triggers enqueue_trigger insert lookup
    text_beq
due = refl

claim_notification-IsFirst_example :
    (e : Delivery) × IsFirst (is_claimable true 100 triggered_tables) triggered_tables.outbox e
    × (claim_notification false true 100 triggered_tables ≡ (
      record triggered_tables { outbox = map (taken 100 e.payload e) triggered_tables.outbox },
      handed e.payload e,
    ))
claim_notification-IsFirst_example = claim_notification-IsFirst true 100 triggered_tables due
