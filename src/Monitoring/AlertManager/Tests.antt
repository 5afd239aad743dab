-- ===== src/Monitoring/AlertManager/Tests.antt =====
-- Runs of src/monitoring/alerting.ts.
use sync_engine.Base.{ℕ, ◌≡◌, refl, String, List, [], ◌∷◌, All}
use sync_engine.Base.Map
use sync_engine.Monitoring.AlertManager
use sync_engine.Monitoring.AlertManager.{AlertManager, Alert, AlertRule, Texts, Event, create}
use sync_engine.Monitoring.AlertManager.Sound.{
  IsSound, Call, call, calls, adds, removes, acknowledges, evaluates, calls-IsSound,
}
use sync_engine.Monitoring.AlertManager.Acknowledged.{Spares, IsAcknowledged, calls-IsAcknowledged}

abbrev texts : Texts
texts = record { alert_id = λ id now. "alert"; fill_in = λ message value threshold. message }

abbrev high_load : AlertRule
high_load = record {
  id = "load";
  name = "High Load";
  metric = "load";
  condition = AlertManager.gt;
  threshold = 8;
  severity = AlertManager.warning;
  cooldown_ms = 10;
  message = "load";
}

abbrev loaded : String → ℕ
loaded metric = 9

abbrev calm : String → ℕ
calm metric = 1

abbrev acknowledging : List Call
acknowledging = adds high_load ∷ evaluates loaded 20 ∷ acknowledges "load" 25 ∷ []

calls-IsSound_example : IsSound (calls texts (create 1) acknowledging).0
calls-IsSound_example = calls-IsSound texts 1 acknowledging

-- The alert is resolved when the load falls, and fired again after the cooldown.
fired_again :
    (calls texts (create 5) (
      adds high_load
      ∷ evaluates loaded 20
      ∷ evaluates calm 30
      ∷ evaluates loaded 40
      ∷ [])).0.last_fired
    ≡ ("load", 40) ∷ []
unfolding calls call create AlertManager.evaluate_rules AlertManager.evaluate_each
    AlertManager.evaluate_rule AlertManager.evaluate_condition AlertManager.trigger
    AlertManager.settle AlertManager.fire AlertManager.resolve_alert Map.get Map.set Map.delete
fired_again = refl

abbrev done : AlertManager
done = (calls texts (create 1) acknowledging).0

abbrev load_alert : Alert
load_alert = AlertManager.acknowledged_alert (AlertManager.new_alert texts high_load 9 20) 25

done-IsAcknowledged : IsAcknowledged done "load"
unfolding calls call create AlertManager.evaluate_rules AlertManager.evaluate_each
    AlertManager.evaluate_rule AlertManager.evaluate_condition AlertManager.trigger
    AlertManager.fire AlertManager.acknowledge_alert Map.get Map.set
done-IsAcknowledged = (load_alert, refl, refl)

abbrev afterwards : List Call
afterwards = evaluates calm 30 ∷ evaluates loaded 60 ∷ removes "load" ∷ []

calls-IsAcknowledged_example :
    let (s', events) = calls texts done afterwards in
    IsAcknowledged s' "load" × All (Spares "load") events
calls-IsAcknowledged_example =
    calls-IsAcknowledged texts done "load" afterwards (calls-IsSound texts 1 acknowledging)
      done-IsAcknowledged
