-- ===== src/Proactive/Spacing.antt =====
-- How far apart the alerts of one metric are (app/agent_runtime/proactive.py).
use mathlib.Core.Path.{subst}
use mathlib.Core.List.{append-nil, append_assoc}
use smart_sre_copilot.Prelude.{
  ℕ, suc, ◌+◌, ◌≤◌, String, ◌≡◌, inl, inr, refl, sym, ap, ◌∙◌, false, Option, some, List, [], ◌∷◌,
  ◌++◌, str_eq, eq_refl, eq_iff, lookup, lookup-insert, All, All-append, Bool-cases, Option-cases,
  arith,
}
use smart_sre_copilot.Proactive.{
  MetricAnomaly, alert_key_of, ProactiveAlert, ProactiveMonitor, MonitorState, Metrics,
  suppress_since, should_suppress, record_alert, probe_service, anomaly_to_alert, Probing,
  read_clock, handle_anomaly, handle_anomalies, probe_services, trigger_diagnosis, probe,
  probe_each,
}

-- A later alert of the same key comes this much later.
abbrev pub FarFrom : ℕ → ProactiveAlert → ProactiveAlert → Type 0
FarFrom interval a b = a.alert_key ≡ b.alert_key → a.timestamp + interval ≤ b.timestamp

abbrev pub Spaced : ℕ → List ProactiveAlert → Type 0
Spaced interval [] = Unit
Spaced interval (a ∷ later) = All (FarFrom interval a) later × Spaced interval later

Spaced-snoc :
    (interval : ℕ) (xs : List ProactiveAlert) (b : ProactiveAlert)
    → Spaced interval xs
    → All (λ a. FarFrom interval a b) xs
    → Spaced interval (xs ++ b ∷ [])
Spaced-snoc interval [] b s far = (tt, tt)
Spaced-snoc interval (a ∷ rest) b (first, s) (f, far) =
    (All-append (FarFrom interval a) rest (b ∷ []) first (f, tt), Spaced-snoc interval rest b s far)

All-map {ℓ κ} :
    {A : Type ℓ} (P Q : A → Type κ) (xs : List A) → ((a : A) → P a → Q a) → All P xs → All Q xs
All-map P Q [] f all = tt
All-map P Q (x ∷ xs) f (p, all) = (f x p, All-map P Q xs f all)

-- The store has a time for the alert's key, and the alert is not later.
abbrev Known : List (String × ℕ) → ProactiveAlert → Type 0
Known times a = (t : ℕ) × (lookup a.alert_key times ≡ some t) × (a.timestamp ≤ t)

module _ (m : ProactiveMonitor) (forward : (i : ℕ) → m.clock i ≤ m.clock (suc i)) where
  abbrev Inv : MonitorState → List ProactiveAlert → Type 0
  Inv s xs = Spaced m.suppress_interval xs × All (Known s.alert_times) xs

  not_since :
      (t now : ℕ) (o : Option ℕ)
      → suppress_since m.suppress_interval now o ≡ false
      → o ≡ some t
      → t + m.suppress_interval ≤ now
  not_since t now o f e =
      let g = ap (suppress_since m.suppress_interval now) (sym e) ∙ f in ground (arith, g)

  module _ (a : MetricAnomaly) (s : MonitorState)
      (passes : should_suppress m (alert_key_of a) s ≡ false) where
    abbrev emitted : ProactiveAlert
    emitted = anomaly_to_alert m a (read_clock s)

    abbrev after : MonitorState
    after = record_alert m (alert_key_of a) (read_clock (read_clock s))

    Known-far : (b : ProactiveAlert) → Known s.alert_times b → FarFrom m.suppress_interval b emitted
    unfolding anomaly_to_alert should_suppress
    Known-far b (t, there, le) e =
        let at = ap (λ k. lookup k s.alert_times) (sym e) ∙ there in
        omega (arith, not_since t (m.clock s.readings) _ passes at, le, forward s.readings)

    Known-kept : (b : ProactiveAlert) → Known s.alert_times b → Known after.alert_times b
    unfolding record_alert should_suppress
    Known-kept b (t, there, le) = elim (Bool-cases (str_eq (alert_key_of a) b.alert_key)) [
      | inl same ↦
          let e = (eq_iff (alert_key_of a) b.alert_key).0 same in
          let at = ap (λ k. lookup k s.alert_times) e ∙ there in
          (
            m.clock (suc (suc s.readings)),
            sym (
                  lookup-insert (alert_key_of a) b.alert_key (m.clock (suc (suc s.readings)))
                    s.alert_times)
                ∙ rw same refl,
            omega (
              arith,
              not_since t (m.clock s.readings) _ passes at,
              le,
              forward s.readings,
              forward (suc s.readings),
            ),
          )
      | inr other ↦ (
        t,
        sym (
              lookup-insert (alert_key_of a) b.alert_key (m.clock (suc (suc s.readings)))
                s.alert_times)
            ∙ rw other there,
        le,
      )
    ]

    emitted-Known : Known after.alert_times emitted
    unfolding record_alert anomaly_to_alert
    emitted-Known = (
      m.clock (suc (suc s.readings)),
      sym (
            lookup-insert (alert_key_of a) (alert_key_of a) (m.clock (suc (suc s.readings)))
              s.alert_times)
          ∙ rw (eq_refl (alert_key_of a)) refl,
      forward (suc s.readings),
    )

    emit-Inv : (xs : List ProactiveAlert) → Inv s xs → Inv after (xs ++ emitted ∷ [])
    emit-Inv xs (spaced, known) = (
      Spaced-snoc m.suppress_interval xs emitted spaced (
          All-map (Known s.alert_times) (λ b. FarFrom m.suppress_interval b emitted) xs Known-far
            known),
      All-append (Known after.alert_times) xs (emitted ∷ [])
          (All-map (Known s.alert_times) (Known after.alert_times) xs Known-kept known)
          (emitted-Known, tt),
    )

  module _ (before : List ProactiveAlert) where
    abbrev ProbingInv : Probing → Type 0
    ProbingInv p = Inv p.state (before ++ p.alerts)

    handle_anomaly-Inv :
        (a : MetricAnomaly) (p : Probing) → ProbingInv p → ProbingInv (handle_anomaly m a p)
    unfolding handle_anomaly
    handle_anomaly-Inv a p inv = elim (Bool-cases (should_suppress m (alert_key_of a) p.state)) [
      | inl f ↦ rw f inv
      | inr f ↦ rw f (
          subst (Inv (after a p.state f)) (append_assoc before p.alerts (emitted a p.state f ∷ []))
            (emit-Inv a p.state f (before ++ p.alerts) inv))
    ]

    handle_anomalies-Inv :
        (found : List MetricAnomaly) (p : Probing)
        → ProbingInv p
        → ProbingInv (handle_anomalies m found p)
    unfolding handle_anomalies
    handle_anomalies-Inv [] p inv = inv
    handle_anomalies-Inv (a ∷ rest) p inv =
        handle_anomalies-Inv rest (handle_anomaly m a p) (handle_anomaly-Inv a p inv)

    probe_services-Inv :
        (metrics : Metrics) (services : List String) (p : Probing)
        → ProbingInv p
        → ProbingInv (probe_services m metrics services p).0
    unfolding probe_services
    probe_services-Inv metrics [] p inv = inv
    probe_services-Inv metrics (service ∷ services) p inv =
        probe_services-Inv metrics services _
          (handle_anomalies-Inv (probe_service m metrics service) p inv)

  trigger_diagnosis-times :
      (anomalies : List MetricAnomaly) (s : MonitorState)
      → (trigger_diagnosis m anomalies s).1.alert_times ≡ s.alert_times
  unfolding trigger_diagnosis
  trigger_diagnosis-times [] s = refl
  trigger_diagnosis-times (a ∷ anomalies) s = elim (Option-cases m.trigger) [
    | inl n ↦ rw n refl
    | inr (create, e) ↦ rw e refl
  ]

  probe-Inv :
      (metrics : Metrics) (s : MonitorState) (before : List ProactiveAlert)
      → Inv s before
      → Inv (probe m metrics s).1 (before ++ (probe m metrics s).0.alerts_emitted)
  unfolding probe
  probe-Inv metrics s before inv =
      let started : Probing = record {
        state = record (read_clock s) { last_probe_time = some (m.clock s.readings) };
        alerts = [];
        suppressed = 0;
      } in
      let probed = probe_services m metrics m.services started in
      subst
        (λ times.
          Spaced m.suppress_interval (before ++ probed.0.alerts)
          × All (Known times) (before ++ probed.0.alerts))
        (sym (trigger_diagnosis-times probed.1 probed.0.state))
        (probe_services-Inv before metrics m.services started
          (subst (Inv s) (sym (append-nil before)) inv))

  probe_each-Inv :
      (rounds : List Metrics) (s : MonitorState) (before : List ProactiveAlert)
      → Inv s before
      → Inv (probe_each m rounds s).1 (before ++ (probe_each m rounds s).0)
  unfolding probe_each
  probe_each-Inv [] s before inv = subst (Inv s) (sym (append-nil before)) inv
  probe_each-Inv (metrics ∷ later) s before inv =
      let first = probe m metrics s in
      subst (Inv (probe_each m later first.1).1)
        (append_assoc before first.0.alerts_emitted (probe_each m later first.1).0)
        (probe_each-Inv later first.1 (before ++ first.0.alerts_emitted)
          (probe-Inv metrics s before inv))

-- Under a clock that does not go back, any two alerts of one key that a sequence of probes emits are
-- at least the interval of suppression apart, whatever the metrics, the services and the state that
-- the sequence starts from.
pub alerts_apart :
    (m : ProactiveMonitor)
    → ((i : ℕ) → m.clock i ≤ m.clock (suc i))
    → (rounds : List Metrics) (s : MonitorState)
    → Spaced m.suppress_interval (probe_each m rounds s).0
alerts_apart m forward rounds s = (probe_each-Inv m forward rounds s [] (tt, tt)).0
