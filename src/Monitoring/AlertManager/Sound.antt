-- ===== src/Monitoring/AlertManager/Sound.antt =====
-- What holds of the alerts of src/monitoring/alerting.ts in every state.
use sync_engine.Base.{
  ℕ, ◌+◌, ◌≤◌, ◌≡◌, ◌≢◌, refl, inl, inr, String, some, List, [], ◌∷◌, ◌++◌, arith, ltb, length,
  or_else, eq_iff, length-append, length-shift, Option-cases, Bool-cases,
}
use sync_engine.Base.Map
use sync_engine.Base.Map.Laws.{get-set, get-delete}
use sync_engine.Monitoring.AlertManager.{
  AlertManager, Alert, AlertRule, AlertStatus, Texts, Event, active, resolved, acknowledged, create,
  add_rule, remove_rule, acknowledge_alert, acknowledged_alert, evaluate_condition, add_to_history,
  new_alert, fire, trigger, resolve_alert, resolved_alert, settle, evaluate_rule, evaluate_each,
  evaluate_rules,
}

-- The calls of a manager, with the measured values of an evaluation.
pub data Call : Type 0 where
  adds : AlertRule → Call
  removes : String → Call
  acknowledges : String → ℕ → Call
  evaluates : (String → ℕ) → ℕ → Call

unfoldable pub call : Texts → AlertManager → Call → AlertManager × List Event
call t s (adds rule) = (add_rule s rule, [])
call t s (removes id) = ((remove_rule s id).0, [])
call t s (acknowledges id now) = let (s', _, events) = acknowledge_alert s id now in (s', events)
call t s (evaluates gauge now) = evaluate_rules t s gauge now

unfoldable pub calls : Texts → AlertManager → List Call → AlertManager × List Event
unfolding call
calls t s [] = (s, [])
calls t s (c ∷ cs) =
    let (s', events) = call t s c in
    let later : AlertManager × List Event = calls t s' cs in (later.0, events ++ later.1)

-- Each active alert stands under the identifier of its rule and is not resolved, and the history is not too
-- long.
pub record IsSound (s : AlertManager) : Type 0 where
  pub keyed : (k : String) (a : Alert) → Map.get s.active_alerts k ≡ some a → a.rule_id ≡ k
  pub live : (k : String) (a : Alert) → Map.get s.active_alerts k ≡ some a → a.status ≢ resolved
  pub bounded : length s.alert_history ≤ s.max_history

length-add_to_history :
    (s : AlertManager) (a : Alert)
    → length s.alert_history ≤ s.max_history
    → length (add_to_history s a) ≤ s.max_history
unfolding add_to_history
length-add_to_history s a le =
    ground
      (arith, le, length-append s.alert_history (a ∷ []), length-shift (s.alert_history ++ a ∷ []))

acknowledge_alert-IsSound :
    (s : AlertManager) (id : String) (now : ℕ) → IsSound s → IsSound (acknowledge_alert s id now).0
unfolding acknowledge_alert
acknowledge_alert-IsSound s id now v = elim (Option-cases (Map.get s.active_alerts id)) [
  | inl e ↦ rw (e, acknowledge_alert) v
  | inr (a, e) ↦
      let b = acknowledged_alert a now in
      let here : a.rule_id ≡ id = v.keyed id a e in
      rw (e, acknowledge_alert)
        (record {
          keyed = λ k x g.
              ground (arith, get-set s.active_alerts id k b, eq_iff id k, v.keyed k x, here, g);
          live =
              λ k x g. ground (arith, get-set s.active_alerts id k b, eq_iff id k, v.live k x, g);
          bounded = v.bounded;
        })
]

fire-IsSound :
    (s : AlertManager) (rule : AlertRule) (a : Alert) (now : ℕ)
    → a.rule_id ≡ rule.id
    → a.status ≡ active
    → IsSound s
    → IsSound (fire s rule a now).0
unfolding fire
fire-IsSound s rule a now same on v = record {
  keyed = λ k x g.
      ground (arith, get-set s.active_alerts rule.id k a, eq_iff rule.id k, v.keyed k x, same, g);
  live = λ k x g. ground (arith, get-set s.active_alerts rule.id k a, v.live k x, on, g);
  bounded = length-add_to_history s a v.bounded;
}

trigger-IsSound :
    (t : Texts) (s : AlertManager) (rule : AlertRule) (value now : ℕ)
    → IsSound s
    → IsSound (trigger t s rule value now).0
unfolding trigger
trigger-IsSound t s rule value now v =
    elim (Bool-cases (ltb now (or_else (Map.get s.last_fired rule.id) 0 + rule.cooldown_ms))) [
      | inl e ↦ rw (e, trigger) v
      | inr e ↦ elim (Bool-cases (Map.has s.active_alerts rule.id)) [
        | inl h ↦ rw (e, trigger, h) v
        | inr h ↦
            rw (e, trigger, h) (fire-IsSound s rule (new_alert t rule value now) now refl refl v)
      ]
    ]

-- By the status of the alert that stands there.
resolve_alert-IsSound :
    (s : AlertManager) (id : String) (a : Alert) (st : AlertStatus) (now : ℕ)
    → a.status ≡ st
    → IsSound s
    → IsSound (resolve_alert s id a now).0
unfolding resolve_alert
resolve_alert-IsSound s id a active now e v =
    rw (e, resolve_alert)
      (record {
        keyed = λ k x g. v.keyed k x (ground (arith, get-delete s.active_alerts id k, g));
        live = λ k x g. v.live k x (ground (arith, get-delete s.active_alerts id k, g));
        bounded = length-add_to_history s (resolved_alert a now) v.bounded;
      })
resolve_alert-IsSound s id a resolved now e v = rw (e, resolve_alert) v
resolve_alert-IsSound s id a acknowledged now e v = rw (e, resolve_alert) v

settle-IsSound :
    (s : AlertManager) (rule : AlertRule) (now : ℕ) → IsSound s → IsSound (settle s rule now).0
unfolding settle
settle-IsSound s rule now v = elim (Option-cases (Map.get s.active_alerts rule.id)) [
  | inl e ↦ rw (e, settle) v
  | inr (a, e) ↦ rw (e, settle) (resolve_alert-IsSound s rule.id a a.status now refl v)
]

pub evaluate_rule-IsSound :
    (t : Texts) (s : AlertManager) (rule : AlertRule) (value now : ℕ)
    → IsSound s
    → IsSound (evaluate_rule t s rule value now).0
unfolding evaluate_rule
evaluate_rule-IsSound t s rule value now v =
    elim (Bool-cases (evaluate_condition value rule.condition rule.threshold)) [
      | inl e ↦ rw (e, evaluate_rule) (trigger-IsSound t s rule value now v)
      | inr e ↦ rw (e, evaluate_rule) (settle-IsSound s rule now v)
    ]

evaluate_each-IsSound :
    (t : Texts) (s : AlertManager) (rules : List AlertRule) (gauge : String → ℕ) (now : ℕ)
    → IsSound s
    → IsSound (evaluate_each t s rules gauge now).0
unfolding evaluate_each
evaluate_each-IsSound t s [] gauge now v = v
evaluate_each-IsSound t s (rule ∷ rules) gauge now v =
    evaluate_each-IsSound t (evaluate_rule t s rule (gauge rule.metric) now).0 rules gauge now
      (evaluate_rule-IsSound t s rule (gauge rule.metric) now v)

pub call-IsSound : (t : Texts) (s : AlertManager) (c : Call) → IsSound s → IsSound (call t s c).0
unfolding call evaluate_rules remove_rule
call-IsSound t s (adds rule) v = record { keyed = v.keyed; live = v.live; bounded = v.bounded }
call-IsSound t s (removes id) v = record { keyed = v.keyed; live = v.live; bounded = v.bounded }
call-IsSound t s (acknowledges id now) v = acknowledge_alert-IsSound s id now v
call-IsSound t s (evaluates gauge now) v = evaluate_each-IsSound t s s.rules gauge now v

calls_keep : (t : Texts) (s : AlertManager) (cs : List Call) → IsSound s → IsSound (calls t s cs).0
unfolding calls
calls_keep t s [] v = v
calls_keep t s (c ∷ cs) v = calls_keep t (call t s c).0 cs (call-IsSound t s c v)

-- Whatever is called, in any order and at any times: each active alert of a new manager stands under the
-- identifier of its rule and is not resolved, and the history is never longer than its bound.
pub calls-IsSound :
    (t : Texts) (max_history : ℕ) (cs : List Call) → IsSound (calls t (create max_history) cs).0
unfolding create Map.get
calls-IsSound t max_history cs = calls_keep t (create max_history) cs (record {
  keyed = λ k a e. absurd (cc e);
  live = λ k a e. absurd (cc e);
  bounded = omega arith;
})
