-- ===== src/Monitoring/AlertManager/Acknowledged.antt =====
-- What becomes of an acknowledged alert of src/monitoring/alerting.ts.
use sync_engine.Base.{
  ℕ, ◌+◌, ◌≡◌, ◌≢◌, refl, sym, ap, ◌∙◌, inl, inr, String, some, List, [], ◌∷◌, arith, ltb, or_else,
  is_some, All, All-append, str_eq, eq_iff, Option-cases, Bool-cases,
}
use sync_engine.Base.Map
use sync_engine.Base.Map.Laws.{get-set, get-delete}
use sync_engine.Monitoring.AlertManager.{
  AlertManager, Alert, AlertRule, AlertStatus, Texts, Event, active, resolved, acknowledged,
  alert_fired, alert_resolved, alert_acknowledged, remove_rule, acknowledge_alert,
  acknowledged_alert, evaluate_condition, new_alert, fire, trigger, resolve_alert, settle,
  evaluate_rule, evaluate_each, evaluate_rules,
}
use sync_engine.Monitoring.AlertManager.Sound.{
  IsSound, Call, call, calls, adds, removes, acknowledges, evaluates, evaluate_rule-IsSound,
  call-IsSound,
}

-- The event neither fires nor resolves an alert of the rule.
abbrev pub Spares : String → Event → Type 0
Spares id (alert_fired a) = a.rule_id ≢ id
Spares id (alert_resolved a) = a.rule_id ≢ id
Spares id (alert_acknowledged a) = Unit

-- The active alert of the rule is acknowledged.
abbrev pub IsAcknowledged : AlertManager → String → Type 0
IsAcknowledged s id =
    (a : Alert) × (Map.get s.active_alerts id ≡ some a) × (a.status ≡ acknowledged)

abbrev Answer : Type 0
Answer = AlertManager × List Event

-- The rule's alert is still acknowledged, and no event is about it.
abbrev Keeps : String → Answer → Type 0
Keeps id r = IsAcknowledged r.0 id × All (Spares id) r.1

fire-Keeps :
    (s : AlertManager) (rule : AlertRule) (a : Alert) (id : String) (now : ℕ)
    → a.rule_id ≡ rule.id
    → rule.id ≢ id
    → IsAcknowledged s id
    → Keeps id (fire s rule a now)
unfolding fire
fire-Keeps s rule a id now same other (b, held, on) = (
  (b, ground (arith, get-set s.active_alerts rule.id id a, eq_iff rule.id id, other, held), on),
  (λ e. other (sym same ∙ e), tt),
)

trigger-Keeps :
    (t : Texts) (s : AlertManager) (rule : AlertRule) (id : String) (value now : ℕ)
    → IsAcknowledged s id
    → Keeps id (trigger t s rule value now)
unfolding trigger
trigger-Keeps t s rule id value now v =
    elim (Bool-cases (ltb now (or_else (Map.get s.last_fired rule.id) 0 + rule.cooldown_ms))) [
      | inl e ↦ rw (e, trigger) (v, tt)
      | inr e ↦ elim (Bool-cases (Map.has s.active_alerts rule.id)) [
        | inl h ↦ rw (e, trigger, h) (v, tt)
        | inr h ↦
            let other : rule.id ≢ id =
              (λ same. cc (ap is_some (ap (Map.get s.active_alerts) same ∙ v.1), h)) in
            rw (e, trigger, h) (fire-Keeps s rule (new_alert t rule value now) id now refl other v)
      ]
    ]

-- By the status of the alert of another rule.
resolve_alert-Keeps :
    (s : AlertManager) (id other : String) (a : Alert) (st : AlertStatus) (now : ℕ)
    → a.status ≡ st
    → a.rule_id ≡ other
    → other ≢ id
    → IsAcknowledged s id
    → Keeps id (resolve_alert s other a now)
unfolding resolve_alert
resolve_alert-Keeps s id other a active now e same ne (b, held, on) =
    rw (e, resolve_alert)
      (
        (b, ground (arith, get-delete s.active_alerts other id, eq_iff other id, ne, held), on),
        (λ x. ne (sym same ∙ x), tt),
      )
resolve_alert-Keeps s id other a resolved now e same ne v = rw (e, resolve_alert) (v, tt)
resolve_alert-Keeps s id other a acknowledged now e same ne v = rw (e, resolve_alert) (v, tt)

settle-Keeps :
    (s : AlertManager) (rule : AlertRule) (id : String) (now : ℕ)
    → IsSound s
    → IsAcknowledged s id
    → Keeps id (settle s rule now)
unfolding settle resolve_alert
settle-Keeps s rule id now sound (b, held, on) = elim (Bool-cases (str_eq rule.id id)) [
  | inl t ↦
      let here : Map.get s.active_alerts rule.id ≡ some b =
        ap (Map.get s.active_alerts) (ground (arith, eq_iff rule.id id)) ∙ held in
      rw (here, settle, on, resolve_alert) ((b, held, on), tt)
  | inr t ↦
      let ne : rule.id ≢ id = ground (arith, eq_iff rule.id id) in
      elim (Option-cases (Map.get s.active_alerts rule.id)) [
        | inl e ↦ rw (e, settle) ((b, held, on), tt)
        | inr (a, e) ↦
            rw (e, settle)
              (resolve_alert-Keeps s id rule.id a a.status now refl (sound.keyed rule.id a e) ne
                (b, held, on))
      ]
]

evaluate_rule-Keeps :
    (t : Texts) (s : AlertManager) (rule : AlertRule) (id : String) (value now : ℕ)
    → IsSound s
    → IsAcknowledged s id
    → Keeps id (evaluate_rule t s rule value now)
unfolding evaluate_rule
evaluate_rule-Keeps t s rule id value now sound v =
    elim (Bool-cases (evaluate_condition value rule.condition rule.threshold)) [
      | inl e ↦ rw (e, evaluate_rule) (trigger-Keeps t s rule id value now v)
      | inr e ↦ rw (e, evaluate_rule) (settle-Keeps s rule id now sound v)
    ]

evaluate_each-Keeps :
    (t : Texts) (s : AlertManager) (rules : List AlertRule) (id : String) (gauge : String → ℕ)
    (now : ℕ)
    → IsSound s
    → IsAcknowledged s id
    → Keeps id (evaluate_each t s rules gauge now)
unfolding evaluate_each
evaluate_each-Keeps t s [] id gauge now sound v = (v, tt)
evaluate_each-Keeps t s (rule ∷ rules) id gauge now sound v =
    let r = evaluate_rule t s rule (gauge rule.metric) now in
    let first = evaluate_rule-Keeps t s rule id (gauge rule.metric) now sound v in
    let later =
      evaluate_each-Keeps t r.0 rules id gauge now
        (evaluate_rule-IsSound t s rule (gauge rule.metric) now sound) first.0 in
    (later.0, All-append (Spares id) r.1 (evaluate_each t r.0 rules gauge now).1 first.1 later.1)

acknowledge_alert-Keeps :
    (s : AlertManager) (other id : String) (now : ℕ)
    → IsAcknowledged s id
    → let (s', _, events) = acknowledge_alert s other now in Keeps id (s', events)
unfolding acknowledge_alert
acknowledge_alert-Keeps s other id now (b, held, on) =
    elim (Option-cases (Map.get s.active_alerts other)) [
      | inl e ↦ rw (e, acknowledge_alert) ((b, held, on), tt)
      | inr (a, e) ↦
          let c = acknowledged_alert a now in
          elim (Bool-cases (str_eq other id)) [
            | inl t ↦
                rw (e, acknowledge_alert)
                  ((c, ground (arith, get-set s.active_alerts other id c, t), refl), (tt, tt))
            | inr t ↦
                rw (e, acknowledge_alert)
                  ((b, ground (arith, get-set s.active_alerts other id c, t, held), on), (tt, tt))
          ]
    ]

call-Keeps :
    (t : Texts) (s : AlertManager) (c : Call) (id : String)
    → IsSound s
    → IsAcknowledged s id
    → Keeps id (call t s c)
unfolding call evaluate_rules remove_rule
call-Keeps t s (adds rule) id sound v = (v, tt)
call-Keeps t s (removes other) id sound v = (v, tt)
call-Keeps t s (acknowledges other now) id sound v = acknowledge_alert-Keeps s other id now v
call-Keeps t s (evaluates gauge now) id sound v =
    evaluate_each-Keeps t s s.rules id gauge now sound v

-- In a state that calls lead to, a rule whose alert has been acknowledged is done with for good: whatever
-- values are measured and whatever is called after it, the alert stays among the active ones, it is
-- never resolved, and no new alert of the rule is fired.
pub calls-IsAcknowledged :
    (t : Texts) (s : AlertManager) (id : String) (cs : List Call)
    → IsSound s
    → IsAcknowledged s id
    → let (s', events) = calls t s cs in IsAcknowledged s' id × All (Spares id) events
unfolding calls
calls-IsAcknowledged t s id [] sound v = (v, tt)
calls-IsAcknowledged t s id (c ∷ cs) sound v =
    let r = call t s c in
    let first = call-Keeps t s c id sound v in
    let later = calls-IsAcknowledged t r.0 id cs (call-IsSound t s c sound) first.0 in
    (later.0, All-append (Spares id) r.1 (calls t r.0 cs).1 first.1 later.1)
