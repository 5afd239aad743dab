-- ===== src/Monitoring/AlertManager.antt =====
-- `AlertManager` of src/monitoring/alerting.ts. The measured values and the thresholds are numbers that are
-- only compared. The collector's `getGauge` is an argument, as are the clock and the texts of an alert.
-- The check timer calls `evaluateRules`.
pub mod Sound
pub mod Acknowledged
mod Tests
use sync_engine.Base.{
  ℕ, ◌+◌, String, Bool, true, false, Option, none, some, List, [], ◌∷◌, ◌++◌, ltb, leb, ◌==◌,
  length, shift, any, or_else, str_eq, if◌then◌else◌,
}
use sync_engine.Base.Map
use sync_engine.Base.Map.{Map}

pub data AlertSeverity : Type 0 where
  info warning critical : AlertSeverity

pub data AlertStatus : Type 0 where
  active resolved acknowledged : AlertStatus

pub data Condition : Type 0 where
  gt lt eq gte lte : Condition

pub record AlertRule : Type 0 where
  pub id : String
  pub name : String
  pub metric : String
  pub condition : Condition
  pub threshold : ℕ
  pub severity : AlertSeverity
  pub cooldown_ms : ℕ
  pub message : String

pub record Alert : Type 0 where
  pub id : String
  pub rule_id : String
  pub name : String
  pub severity : AlertSeverity
  pub status : AlertStatus
  pub message : String
  pub value : ℕ
  pub threshold : ℕ
  pub fired_at : ℕ
  pub resolved_at : Option ℕ
  pub acknowledged_at : Option ℕ

pub record AlertManager : Type 0 where
  pub rules : List AlertRule
  pub active_alerts : Map Alert
  pub alert_history : List Alert
  pub last_fired : Map ℕ
  pub max_history : ℕ

-- `alert-${rule.id}-${now}`, and the message with the value and the threshold put in.
pub record Texts : Type 0 where
  pub alert_id : String → ℕ → String
  pub fill_in : String → ℕ → ℕ → String

pub data Event : Type 0 where
  alert_fired alert_resolved alert_acknowledged : Alert → Event

unfoldable pub create : ℕ → AlertManager
create max_history = record {
  rules = [];
  active_alerts = [];
  alert_history = [];
  last_fired = [];
  max_history = max_history;
}

abbrev pub add_rule : AlertManager → AlertRule → AlertManager
add_rule s rule = record s { rules = s.rules ++ rule ∷ [] }

-- The first rule of the identifier goes.
unfoldable pub without_rule : String → List AlertRule → List AlertRule
without_rule id [] = []
without_rule id (r ∷ rs) = let rest = without_rule id rs in if str_eq r.id id then rs else r ∷ rest

unfoldable pub remove_rule : AlertManager → String → AlertManager × Bool
unfolding without_rule
remove_rule s id =
    (record s { rules = without_rule id s.rules }, any (λ (r : AlertRule). str_eq r.id id) s.rules)

abbrev pub acknowledged_alert : Alert → ℕ → Alert
acknowledged_alert a now = record a { status = acknowledged; acknowledged_at = some now }

-- The identifier is looked up among the keys of the active alerts.
unfoldable pub acknowledge_alert : AlertManager → String → ℕ → AlertManager × Bool × List Event
acknowledge_alert s id now = elim (Map.get s.active_alerts id) [
  | none ↦ (s, false, [])
  | some a ↦ (
    record s { active_alerts = Map.set s.active_alerts id (acknowledged_alert a now) },
    true,
    alert_acknowledged (acknowledged_alert a now) ∷ [],
  )
]

unfoldable pub evaluate_condition : ℕ → Condition → ℕ → Bool
evaluate_condition value gt threshold = ltb threshold value
evaluate_condition value lt threshold = ltb value threshold
evaluate_condition value eq threshold = value == threshold
evaluate_condition value gte threshold = leb threshold value
evaluate_condition value lte threshold = leb value threshold

unfoldable pub add_to_history : AlertManager → Alert → List Alert
add_to_history s a =
    let longer = s.alert_history ++ a ∷ [] in
    if ltb s.max_history (length longer) then shift longer else longer

abbrev pub new_alert : Texts → AlertRule → ℕ → ℕ → Alert
new_alert t rule value now = record {
  id = t.alert_id rule.id now;
  rule_id = rule.id;
  name = rule.name;
  severity = rule.severity;
  status = active;
  message = t.fill_in rule.message value rule.threshold;
  value = value;
  threshold = rule.threshold;
  fired_at = now;
  resolved_at = none;
  acknowledged_at = none;
}

unfoldable pub fire : AlertManager → AlertRule → Alert → ℕ → AlertManager × List Event
unfolding add_to_history
fire s rule a now = (
  record s {
    active_alerts = Map.set s.active_alerts rule.id a;
    last_fired = Map.set s.last_fired rule.id now;
    alert_history = add_to_history s a;
  },
  alert_fired a ∷ [],
)

-- The rule is triggered. `now - lastFiredAt < cooldown` is written without the difference.
unfoldable pub trigger : Texts → AlertManager → AlertRule → ℕ → ℕ → AlertManager × List Event
unfolding fire
trigger t s rule value now =
    if ltb now (or_else (Map.get s.last_fired rule.id) 0 + rule.cooldown_ms)
    then (s, [])
    else (if Map.has s.active_alerts rule.id
        then (s, [])
        else fire s rule (new_alert t rule value now) now)

abbrev pub resolved_alert : Alert → ℕ → Alert
resolved_alert a now = record a { status = resolved; resolved_at = some now }

unfoldable pub resolve_alert : AlertManager → String → Alert → ℕ → AlertManager × List Event
unfolding add_to_history
resolve_alert s id a now = elim a.status [
  | active ↦ (
    record s {
      active_alerts = Map.delete s.active_alerts id;
      alert_history = add_to_history s (resolved_alert a now);
    },
    alert_resolved (resolved_alert a now) ∷ [],
  )
  | resolved ↦ (s, [])
  | acknowledged ↦ (s, [])
]

-- The rule is not triggered.
unfoldable pub settle : AlertManager → AlertRule → ℕ → AlertManager × List Event
unfolding resolve_alert
settle s rule now = elim (Map.get s.active_alerts rule.id) [
  | none ↦ (s, [])
  | some a ↦ resolve_alert s rule.id a now
]

-- One round of the loop of `evaluateRules`.
unfoldable pub evaluate_rule : Texts → AlertManager → AlertRule → ℕ → ℕ → AlertManager × List Event
unfolding evaluate_condition trigger settle
evaluate_rule t s rule value now =
    if evaluate_condition value rule.condition rule.threshold
    then trigger t s rule value now
    else settle s rule now

unfoldable pub evaluate_each :
    Texts → AlertManager → List AlertRule → (String → ℕ) → ℕ → AlertManager × List Event
unfolding evaluate_rule
evaluate_each t s [] gauge now = (s, [])
evaluate_each t s (rule ∷ rules) gauge now =
    let (s', events) = evaluate_rule t s rule (gauge rule.metric) now in
    let later : AlertManager × List Event = evaluate_each t s' rules gauge now in
    (later.0, events ++ later.1)

unfoldable pub evaluate_rules : Texts → AlertManager → (String → ℕ) → ℕ → AlertManager × List Event
unfolding evaluate_each
evaluate_rules t s gauge now = evaluate_each t s s.rules gauge now

abbrev pub get_active_alerts : AlertManager → List Alert
get_active_alerts s = Map.values s.active_alerts

abbrev pub get_alert_history : AlertManager → List Alert
get_alert_history s = s.alert_history

-- `getStats`
abbrev pub get_stats : AlertManager → ℕ × ℕ × ℕ
get_stats s = (Map.size s.active_alerts, length s.rules, length s.alert_history)
