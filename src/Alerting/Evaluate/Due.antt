-- ===== src/Alerting/Evaluate/Due.antt =====
-- For whom `Evaluate` may open an alert.
use wavecontrol.Prelude.{
  ℕ, suc, true, false, List, [], ◌∷◌, ◌++◌, inl, inr, Option, none, some, ◌≡◌, refl, sym,
  Bool-cases, All, All-append, All-imp, leb_ℤ, ℤ, pos, nat_eq, int_eq, text_eq,
}
use wavecontrol.GoMap.{GoMap, lookup}
use wavecontrol.Alerting.Rule.{Floats, Rule}
use wavecontrol.Alerting.Metrics.{get_metric_value, Device, Policy}
use wavecontrol.Alerting.Conditions.{rule_applies, evaluate_condition}
use wavecontrol.Alerting.States.{Key, AlertState, World, key_eq}
use wavecontrol.Alerting.Clearing.Runs.{act, acts, Act, rise, fall, silence, reset, by_hand}
use wavecontrol.Alerting.Evaluate.{
  judge, treat, plan_rule, plan, rules_by_id, prune_lost, prune_state, prune, evaluate, Outside,
}
use wavecontrol.Alerting.Lifecycle.Queue.{IsIn}

module _ (fl : Floats) (o : Outside fl) (policies : GoMap ℤ Policy) (now : ℕ)
    (rules : List (Rule fl.Float)) (stats : List (Device fl.Float)) where
  -- The rule is one of the rules, the device one of the devices with an id, its policy is known and
  -- lets the rule apply at this time, and the value is what the metric of the rule is for the device
  -- and meets the condition of the rule.
  pub record Due (rule : Rule fl.Float) (device_id : ℤ) (value : fl.Float) : Type 0 where
    pub device : Device fl.Float
    pub policy : Policy
    pub asked : IsIn rules rule
    pub seen : IsIn stats device
    pub has_id : leb_ℤ device.device_id (pos 0) ≡ false
    pub is_it : device.device_id ≡ device_id
    pub known : lookup device_id policies ≡ some policy
    pub applies : rule_applies fl rule device policy now ≡ true
    pub measured :
        get_metric_value fl o.millions o.seconds rule.metric device policy now ≡ some value
    pub met : evaluate_condition fl rule.operator value rule.threshold ≡ true

  abbrev pub IsDue : Act fl.Float fl.Float → Type 0
  IsDue (rise rule device_id f value t id) = Due rule device_id value
  IsDue (fall rule device_id fails t) = Unit
  IsDue (silence fails t recovery device_id) = Unit
  IsDue (reset fails t notify_recovery rule_id) = Unit
  IsDue (by_hand fails t id recovery) = Unit

  judge-IsDue :
      (rule : Rule fl.Float) (ds : Device fl.Float) (policy : Policy) (value : Option fl.Float)
      → IsIn rules rule
      → IsIn stats ds
      → leb_ℤ ds.device_id (pos 0) ≡ false
      → lookup ds.device_id policies ≡ some policy
      → rule_applies fl rule ds policy now ≡ true
      → get_metric_value fl o.millions o.seconds rule.metric ds policy now ≡ value
      → IsDue (judge fl o now rule ds value)
  judge-IsDue rule ds policy none asked seen id known applies measured = tt
  judge-IsDue rule ds policy (some v) asked seen id known applies measured =
      elim (Bool-cases (evaluate_condition fl rule.operator v rule.threshold)) [
        | inl e ↦ rw e (record {
          device = ds;
          policy = policy;
          asked = asked;
          seen = seen;
          has_id = id;
          is_it = refl;
          known = known;
          applies = applies;
          measured = measured;
          met = e;
        })
        | inr e ↦ rw e tt
      ]

  treat-IsDue :
      (rule : Rule fl.Float) (ds : Device fl.Float) (found : Option Policy)
      → IsIn rules rule
      → IsIn stats ds
      → leb_ℤ ds.device_id (pos 0) ≡ false
      → lookup ds.device_id policies ≡ found
      → IsDue (treat fl o now rule ds found)
  treat-IsDue rule ds none asked seen id known = tt
  treat-IsDue rule ds (some policy) asked seen id known =
      elim (Bool-cases (rule_applies fl rule ds policy now)) [
        | inl e ↦ rw e (judge-IsDue rule ds policy _ asked seen id known e refl)
        | inr e ↦ rw e tt
      ]

  plan_rule-IsDue :
      (rule : Rule fl.Float) (l : List (Device fl.Float))
      → IsIn rules rule
      → All (IsIn stats) l
      → All IsDue (plan_rule fl o now policies rule l)
  unfolding plan_rule
  plan_rule-IsDue rule [] asked seen = tt
  plan_rule-IsDue rule (ds ∷ l) asked (here, seen) =
      elim (Bool-cases (leb_ℤ ds.device_id (pos 0))) [
        | inl e ↦ rw e (plan_rule-IsDue rule l asked seen)
        | inr e ↦ rw e (
          treat-IsDue rule ds (lookup ds.device_id policies) asked here e refl,
          plan_rule-IsDue rule l asked seen,
        )
      ]

  plan-IsDue :
      (l : List (Rule fl.Float))
      → All (IsIn rules) l
      → All (IsIn stats) stats
      → All IsDue (plan fl o now policies l stats)
  unfolding plan
  plan-IsDue [] asked seen = tt
  plan-IsDue (rule ∷ l) (here, asked) seen =
      All-append IsDue (plan_rule fl o now policies rule stats) (plan fl o now policies l stats)
        (plan_rule-IsDue rule stats here seen) (plan-IsDue l asked seen)

  prune_lost-IsDue :
      (found : Option Policy) (rule : Rule fl.Float) (device_id : ℤ)
      (rest : List (Act fl.Float fl.Float))
      → All IsDue rest
      → All IsDue (prune_lost fl o now found rule device_id rest)
  prune_lost-IsDue none rule device_id rest a = (tt, a)
  prune_lost-IsDue (some policy) rule device_id rest a = a

  prune_state-IsDue :
      (device_id : ℤ) (found : Option (Rule fl.Float)) (rest : List (Act fl.Float fl.Float))
      → All IsDue rest
      → All IsDue (prune_state fl o now policies device_id found rest)
  prune_state-IsDue device_id none rest a = a
  prune_state-IsDue device_id (some rule) rest a =
      prune_lost-IsDue (lookup device_id policies) rule device_id rest a

  prune-IsDue :
      (by_id : GoMap ℤ (Rule fl.Float)) (states : GoMap Key (AlertState fl.Float))
      → All IsDue (prune fl o now policies by_id states)
  unfolding prune
  prune-IsDue by_id [] = tt
  prune-IsDue by_id ((k, s) ∷ states) =
      prune_state-IsDue k.1 (lookup k.0 by_id) (prune fl o now policies by_id states)
        (prune-IsDue by_id states)

acts-append :
    {V F : Type 0} (l m : List (Act V F)) (w : World V) → acts (l ++ m) w ≡ acts m (acts l w)
unfolding acts
acts-append [] m w = refl
acts-append (a ∷ l) m w = acts-append l m (act a w)

-- The policies, or none where they cannot be loaded.
abbrev pub policies_of : Option (GoMap ℤ Policy) → GoMap ℤ Policy
policies_of none = []
policies_of (some policies) = policies

All-IsIn {ℓ} : {A : Type ℓ} (l : List A) → All (IsIn l) l
All-IsIn [] = tt
All-IsIn (x ∷ l) = ((0, refl), All-imp l (λ y (i, at). (suc i, at)) (All-IsIn l))

-- An evaluation is a sequence of calls of `handleTriggered` and `handleResolved`, and it triggers a
-- rule of its list only for a device of its list with an id above 0 whose policy is known, where the
-- rule applies to the device at this time, so that it is neither silenced nor excluded, and with the
-- value that the metric of the rule has for this device, which meets the condition of the rule.
pub evaluate-IsDue :
    (fl : Floats) (o : Outside fl) (now : ℕ) (policies : Option (GoMap ℤ Policy))
    (rules : List (Rule fl.Float)) (stats : List (Device fl.Float)) (w : World fl.Float)
    → (l : List (Act fl.Float fl.Float)) × (evaluate fl o now policies rules stats w ≡ acts l w)
      × All (IsDue fl o (policies_of policies) now rules stats) l
unfolding evaluate
evaluate-IsDue fl o now policies [] stats w = ([], (unfold acts in refl), tt)
evaluate-IsDue fl o now none (rule ∷ rules) stats w = ([], (unfold acts in refl), tt)
evaluate-IsDue fl o now (some policies) (rule ∷ rules) stats w =
    let first : List (Act fl.Float fl.Float) = plan fl o now policies (rule ∷ rules) stats in
    let by_id = rules_by_id fl o now [] (rule ∷ rules) in
    let second : List (Act fl.Float fl.Float) =
      prune fl o now policies by_id (acts first w).states in
    (
      first ++ second,
      sym (acts-append first second w),
      All-append (IsDue fl o policies now (rule ∷ rules) stats) first second
          (plan-IsDue fl o policies now (rule ∷ rules) stats (rule ∷ rules)
            (All-IsIn (rule ∷ rules)) (All-IsIn stats))
          (prune-IsDue fl o policies now (rule ∷ rules) stats by_id (acts first w).states),
    )
