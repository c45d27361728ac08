-- ===== src/Alerting/Examples/Runs.antt =====
-- Runs of the evaluation of rules, and uses of its theorems.
use wavecontrol.Prelude.{
  ◌+◌, ◌*◌, ◌/◌, true, false, List, [], ◌∷◌, none, some, ◌≡◌, refl, All, codes, text_beq, to_lower,
  pos_part, ℤ, pos, is_space, trim_left, trim_right, trim, trim_space, nat_eq, int_eq, text_eq,
}
use wavecontrol.GoMap.{insert, lookup, delete}
use wavecontrol.Alerting.Rule.{member, unique_loop, unique_channels, normalize_rule}
use wavecontrol.Alerting.Lifecycle.{
  second, enqueue_trigger, enqueue_triggers, enqueue_recovery, recover_triggers, triggers_of,
  resolve_alert_tx, open_alert,
}
use wavecontrol.Alerting.Lifecycle.Reach.{start}
use wavecontrol.Alerting.Metrics.{Device, Policy}
use wavecontrol.Alerting.States.{
  adjust, handle_triggered, open_ids, resolve_all, handle_resolved, World, Faults, key_eq,
}
use wavecontrol.Alerting.States.Mirror.{Mirrors}
use wavecontrol.Alerting.Clearing.Runs.{acts, acts-Mirrors, Act, rise, silence, by_hand}
use wavecontrol.Alerting.Clearing.Cooldown.{
  IsSpaced, calls, calls-IsSpaced, Call, triggered, resolved_call,
}
use wavecontrol.Alerting.Evaluate.{evaluate, Outside}
use wavecontrol.Alerting.Evaluate.Due.{IsDue, evaluate-IsDue}
use wavecontrol.Alerting.Examples.{whole, hot}
use wavecontrol.Alerting.Rule.Normal.{normalize_rule_idem}

-- A rule that is met at 0 s, at 60 s, where its alert is opened, and again after it was resolved.
abbrev empty_world : World ℤ
empty_world = record { states = []; last_notified = []; rows = []; tables = start.tables }

abbrev no_faults : Faults
no_faults = record { exec = false; marshal = false; tx = false }

abbrev hot_calls : List (Call ℤ)
hot_calls =
    triggered no_faults (pos 95) 1 (pos 1)
    ∷ triggered no_faults (pos 96) (60 * second + 1) (pos 1)
    ∷ resolved_call false (70 * second)
    ∷ triggered no_faults (pos 97) (80 * second) (pos 2)
    ∷ triggered no_faults (pos 97) (400 * second) (pos 2)
    ∷ []

calls_opened :
    (calls hot (pos 3) hot_calls (empty_world, [])).1 ≡ 400 * second ∷ (60 * second + 1) ∷ []
unfolding calls handle_triggered handle_resolved open_ids resolve_all resolve_alert_tx open_alert
    enqueue_triggers enqueue_trigger enqueue_recovery recover_triggers triggers_of insert lookup
    delete adjust unique_channels unique_loop member to_lower trim_space trim trim_left trim_right
    is_space text_beq
calls_opened = refl

none_yet : lookup (hot.id, pos 3) empty_world.last_notified ≡ none
unfolding lookup
none_yet = refl

calls-IsSpaced_example :
    IsSpaced
      (pos_part hot.cooldown_seconds * second)
      (calls hot (pos 3) hot_calls (empty_world, [])).1
calls-IsSpaced_example = calls-IsSpaced hot (pos 3) hot_calls empty_world none_yet

abbrev hot_acts : List (Act ℤ ℤ)
hot_acts =
    rise hot (pos 3) no_faults (pos 95) 1 (pos 1)
    ∷ rise hot (pos 3) no_faults (pos 96) (60 * second + 1) (pos 1)
    ∷ by_hand false (70 * second) (pos 1) (some true)
    ∷ silence false (80 * second) (λ id. some true) (pos 3)
    ∷ []

empty_world-Mirrors : Mirrors empty_world
unfolding lookup
empty_world-Mirrors k = tt

acts-Mirrors_example : Mirrors (acts hot_acts empty_world)
acts-Mirrors_example = acts-Mirrors hot_acts empty_world empty_world-Mirrors

abbrev outside : Outside whole
outside = record {
  millions = λ n. n;
  seconds = λ n. pos (n / second);
  faults = λ rule_id device_id. no_faults;
  ids = λ rule_id device_id. pos 1;
}

abbrev busy : Device ℤ
busy = record {
  device_id = pos 3;
  site_id = pos 4;
  is_offline = false;
  last_seen = 5;
  cpu_usage = pos 97;
  temperature_cpu = pos 40;
  mem_usage = pos 30;
  peer_count = pos 2;
  link_score_dl = none;
  radio_60ghz = none;
  radio_5ghz = none;
  radio_6ghz = none;
  radio_ltu = none;
  radios = [];
  config_gps_sync = false;
}

-- Silenced until 50.
abbrev silenced : Policy
silenced = record {
  device_id = pos 3;
  role = codes "ap";
  alertable = true;
  silenced_until = some 50;
  created_at = 1;
}

evaluate-IsDue_example :
    (l : List (Act ℤ ℤ)) × (evaluate whole outside 20
        (some ((pos 3, silenced) ∷ []))
        (hot ∷ [])
        (busy ∷ [])
        empty_world
      ≡ acts l empty_world)
    × All (IsDue whole outside ((pos 3, silenced) ∷ []) 20 (hot ∷ []) (busy ∷ [])) l
evaluate-IsDue_example =
    evaluate-IsDue whole outside 20 (some ((pos 3, silenced) ∷ [])) (hot ∷ []) (busy ∷ [])
      empty_world

normalize_rule_idem_example : normalize_rule (normalize_rule hot) ≡ normalize_rule hot
normalize_rule_idem_example = normalize_rule_idem hot
