-- ===== src/Proactive.antt =====
-- Proactive monitoring (app/agent_runtime/proactive.py): probes of the services' metrics, the
-- suppression of repeated alerts over an `InMemoryAlertStore`, and the diagnosis a probe triggers.
-- Metrics are in hundredths of a percent and times in seconds. The source of the metrics, the clock
-- and the callback that creates a run are parameters; messages are left out.
pub mod Spacing
mod Tests
use Prim.Native.String as Text
use smart_sre_copilot.Prelude.{
  ℕ, suc, ◌+◌, ◌*◌, String, Bool, true, false, Option, none, some, List, [], ◌∷◌, ◌++◌, length, leb,
  ltb, if◌then◌else◌, lookup, insert,
}

pub record MetricAnomaly : Type 0 where
  pub service_name : String
  pub metric_type : String
  pub max_value : ℕ
  pub threshold : ℕ

-- `alert_key` of `__post_init__`
abbrev pub alert_key_of : MetricAnomaly → String
alert_key_of a = Text.◌++◌ a.service_name (Text.◌++◌ ":" a.metric_type)

pub record ProactiveAlert : Type 0 where
  pub alert_key : String
  pub service_name : String
  pub metric_type : String
  pub severity : String
  pub timestamp : ℕ

pub record ProbeResult : Type 0 where
  pub services_polled : ℕ
  pub anomalies : List MetricAnomaly
  pub alerts_emitted : List ProactiveAlert
  pub alerts_suppressed : ℕ
  pub run_id : Option String

pub record ProactiveMonitor : Type 0 where
  pub services : List String
  pub cpu_threshold : ℕ
  pub memory_threshold : ℕ
  pub probe_interval : ℕ
  pub suppress_interval : ℕ
  -- The clock at its n-th reading.
  pub clock : ℕ → ℕ
  -- `trigger` on its n-th call, for a service.
  pub trigger : Option (ℕ → String → Option String)

-- The alert store, the clock's readings so far, the last probe and the calls of the trigger.
pub record MonitorState : Type 0 where
  pub alert_times : List (String × ℕ)
  pub readings : ℕ
  pub last_probe_time : Option ℕ
  pub run_counter : ℕ

-- The maxima of the two metrics of a service; `none` is an exception or a missing value.
abbrev pub Metrics : Type 0
Metrics = String → Option ℕ × Option ℕ

-- ---------------------------------------------------------------- suppression

abbrev pub suppress_since : ℕ → ℕ → Option ℕ → Bool
suppress_since interval now none = false
suppress_since interval now (some last) = ltb now (last + interval)

-- `AlertDeduplicator.should_suppress`
unfoldable pub should_suppress : ProactiveMonitor → String → MonitorState → Bool
should_suppress m key s =
    suppress_since m.suppress_interval (m.clock s.readings) (lookup key s.alert_times)

-- `AlertDeduplicator.record_alert`
unfoldable pub record_alert : ProactiveMonitor → String → MonitorState → MonitorState
record_alert m key s = record s {
  alert_times = insert key (m.clock s.readings) s.alert_times;
  readings = suc s.readings;
}

-- ---------------------------------------------------------------- a probe

-- `should_probe`
unfoldable pub should_probe : ProactiveMonitor → MonitorState → Bool
should_probe m s = elim s.last_probe_time [
  | none ↦ true
  | some last ↦ leb (last + m.probe_interval) (m.clock s.readings)
]

abbrev pub or_zero : Option ℕ → ℕ
or_zero none = 0
or_zero (some n) = n

abbrev pub anomaly_if : String → String → ℕ → ℕ → List MetricAnomaly
anomaly_if service metric_type value threshold =
    if leb threshold value
    then record {
      service_name = service;
      metric_type = metric_type;
      max_value = value;
      threshold = threshold;
    }
      ∷ []
    else []

-- `_probe_service`
unfoldable pub probe_service : ProactiveMonitor → Metrics → String → List MetricAnomaly
probe_service m metrics service =
    anomaly_if service "cpu" (or_zero (metrics service).0) m.cpu_threshold
    ++ anomaly_if service "memory" (or_zero (metrics service).1) m.memory_threshold

-- `_anomaly_to_alert`
unfoldable pub anomaly_to_alert : ProactiveMonitor → MetricAnomaly → MonitorState → ProactiveAlert
anomaly_to_alert m a s = record {
  alert_key = alert_key_of a;
  service_name = a.service_name;
  metric_type = a.metric_type;
  severity = if leb (a.threshold * 12) (a.max_value * 10) then "critical" else "warning";
  timestamp = m.clock s.readings;
}

-- A probe under way: the state, the alerts so far, and how many were suppressed.
pub record Probing : Type 0 where
  pub state : MonitorState
  pub alerts : List ProactiveAlert
  pub suppressed : ℕ

abbrev pub read_clock : MonitorState → MonitorState
read_clock s = record s { readings = suc s.readings }

-- The body of the loop over the anomalies of a service.
unfoldable pub handle_anomaly : ProactiveMonitor → MetricAnomaly → Probing → Probing
unfolding should_suppress record_alert anomaly_to_alert
handle_anomaly m a p =
    let read = read_clock p.state in
    if should_suppress m (alert_key_of a) p.state
    then record p { state = read; suppressed = suc p.suppressed }
    else record p {
      state = record_alert m (alert_key_of a) (read_clock read);
      alerts = p.alerts ++ anomaly_to_alert m a read ∷ [];
    }

unfoldable pub handle_anomalies : ProactiveMonitor → List MetricAnomaly → Probing → Probing
unfolding handle_anomaly
handle_anomalies m [] p = p
handle_anomalies m (a ∷ rest) p = handle_anomalies m rest (handle_anomaly m a p)

-- The loop over the services: what is left of the probe, and the anomalies.
unfoldable pub probe_services :
    ProactiveMonitor → Metrics → List String → Probing → Probing × List MetricAnomaly
unfolding probe_service handle_anomalies
probe_services m metrics [] p = (p, [])
probe_services m metrics (service ∷ services) p =
    let found = probe_service m metrics service in
    let rest = probe_services m metrics services (handle_anomalies m found p) in
    (rest.0, found ++ rest.1)

abbrev pub first_service : List String → String
first_service [] = "unknown"
first_service (service ∷ services) = service

-- `AutoDiagnosisTrigger.trigger`, and whether it is called at all.
unfoldable pub trigger_diagnosis :
    ProactiveMonitor → List MetricAnomaly → MonitorState → Option String × MonitorState
trigger_diagnosis m [] s = (none, s)
trigger_diagnosis m (a ∷ anomalies) s = elim m.trigger [
  | none ↦ (none, s)
  | some create ↦ (
    create (suc s.run_counter) (first_service m.services),
    record s { run_counter = suc s.run_counter },
  )
]

-- `probe`
unfoldable pub probe : ProactiveMonitor → Metrics → MonitorState → ProbeResult × MonitorState
unfolding probe_services trigger_diagnosis
probe m metrics s =
    let started = record (read_clock s) { last_probe_time = some (m.clock s.readings) } in
    let (p, anomalies) =
      probe_services m metrics m.services
        (record { state = started; alerts = []; suppressed = 0 }) in
    let (run_id, left) = trigger_diagnosis m anomalies p.state in
    (
      record {
        services_polled = length m.services;
        anomalies = anomalies;
        alerts_emitted = p.alerts;
        alerts_suppressed = p.suppressed;
        run_id = run_id;
      },
      left,
    )

-- One probe after the other, with the alerts of all.
unfoldable pub probe_each :
    ProactiveMonitor → List Metrics → MonitorState → List ProactiveAlert × MonitorState
unfolding probe
probe_each m [] s = ([], s)
probe_each m (metrics ∷ later) s =
    let first = probe m metrics s in
    let rest = probe_each m later first.1 in (first.0.alerts_emitted ++ rest.0, rest.1)
