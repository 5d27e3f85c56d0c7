-- ===== src/Proactive/Tests.antt =====
-- Runs and witnesses of the proactive monitor, on two services.
use smart_sre_copilot.Prelude.{
  ◌*◌, ◌≡◌, refl, none, some, [], ◌∷◌, arith, lookup, insert, str_eq, if◌then◌else◌,
}
use smart_sre_copilot.Proactive.{
  ProactiveMonitor, MonitorState, Metrics, should_suppress, record_alert, probe_service,
  anomaly_to_alert, handle_anomaly, handle_anomalies, probe_services, trigger_diagnosis, probe,
  probe_each,
}
use smart_sre_copilot.Proactive.Spacing.{Spaced, alerts_apart}

abbrev monitor : ProactiveMonitor
monitor = record {
  services = "api" ∷ "orders" ∷ [];
  cpu_threshold = 80;
  memory_threshold = 70;
  probe_interval = 60;
  suppress_interval = 1800;
  clock = λ i. i * 100;
  trigger = some (λ n service. some service);
}

abbrev fresh : MonitorState
fresh = record { alert_times = []; readings = 0; last_probe_time = none; run_counter = 0 }

abbrev busy : Metrics
busy service = if str_eq service "orders" then (some 97, some 20) else (none, some 40)

-- The second probe's alert is suppressed, and yet a diagnosis is triggered, for the first service.
abbrev first_state : MonitorState
first_state = (probe monitor busy fresh).1

suppressed :
    ((probe monitor busy fresh).0.alerts_suppressed ≡ 0)
    × ((probe monitor busy first_state).0.alerts_suppressed ≡ 1)
    × ((probe monitor busy first_state).0.alerts_emitted ≡ [])
    × ((probe monitor busy first_state).0.run_id ≡ some "api")
unfolding probe probe_services probe_service handle_anomalies handle_anomaly should_suppress
    record_alert anomaly_to_alert trigger_diagnosis lookup insert
suppressed = (refl, refl, refl, refl)

alerts_apart_example : Spaced 1800 (probe_each monitor (busy ∷ busy ∷ busy ∷ []) fresh).0
alerts_apart_example = alerts_apart monitor (λ i. omega arith) (busy ∷ busy ∷ busy ∷ []) fresh
