-- ===== src/Evidence/Tests.antt =====
-- Runs and witnesses of the evidence assessment (app/agent_runtime/evidence.py).
use smart_sre_copilot.Prelude.{
  ap, str_eq, true, false, String, ◌≡◌, ◌≢◌, refl, none, some, [], ◌∷◌, map,
}
use smart_sre_copilot.Decision.{strong}
use smart_sre_copilot.Evidence.{
  Value, text, object, field, no_field, null, EvidenceItem, assess, assess_many, assessment,
  root_cause, root_causes, root_cause_conflict,
}
use smart_sre_copilot.Evidence.Assessment.{IsPreferred, assess_many-IsPreferred}

-- Texts as they are: enough for causes in lower case with no blanks around them.
abbrev plain : Value → String
plain (text t) = t
plain _ = ""

abbrev names_cause : String → String → EvidenceItem
names_cause tool cause = record {
  tool_name = tool;
  status = "success";
  output = object (field "root_cause" (text cause) no_field);
  error_text = none;
}

abbrev timed_out : EvidenceItem
timed_out = record {
  tool_name = "logs";
  status = "timeout";
  output = null;
  error_text = some "slow";
}

found_strong : assess (names_cause "logs" "disk") ≡ assessment strong 80
unfolding assess
found_strong = refl

agrees : root_cause_conflict plain (timed_out ∷ names_cause "logs" "disk" ∷ []) ≡ false
unfolding root_cause_conflict root_causes root_cause
agrees = refl

assess_many-IsPreferred_example :
    IsPreferred
      (assess_many plain (timed_out ∷ names_cause "logs" "disk" ∷ []))
      (map assess (timed_out ∷ names_cause "logs" "disk" ∷ []))
assess_many-IsPreferred_example =
    assess_many-IsPreferred plain timed_out (names_cause "logs" "disk" ∷ []) agrees

disk : root_cause plain (names_cause "logs" "disk") ≡ some "disk"
unfolding root_cause
disk = refl

network : root_cause plain (names_cause "metrics" "network") ≡ some "network"
unfolding root_cause
network = refl

differ : ◌≢◌ {A = String} "disk" "network"
differ e = let t : true ≡ false = ap (str_eq "disk") e in cc
