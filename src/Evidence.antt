-- ===== src/Evidence.antt =====
-- The classification of tool results (app/agent_runtime/evidence.py) and the evidence items that
-- it reads (`EvidenceItem` in app/agent_runtime/state.py). Statuses are texts, as in the source;
-- confidences are in hundredths; summaries and citations are left out.
pub mod Assessment
mod Tests
use Prim.Native.String as Text
use smart_sre_copilot.Prelude.{
  ℕ, zero, suc, String, Bool, true, false, ◌||◌, not, Option, none, some, List, [], ◌∷◌, map,
  str_eq, leb, if◌then◌else◌, find?, contains, length,
}
use smart_sre_copilot.Decision.{
  EvidenceQuality, strong, partial, weak, empty, conflicting, error, EvidenceAssessment,
}

-- What a tool may return: a JSON value. Numbers keep their written form, with whether they are zero.
mutual
  pub data Value : Type 0 where
    null : Value
    text : String → Value
    boolean : Bool → Value
    integer : Bool → String → Value
    number : Bool → String → Value
    object : Fields → Value
    array : Values → Value

  pub data Fields : Type 0 where
    no_field : Fields
    field : String → Value → Fields → Fields

  pub data Values : Type 0 where
    no_value : Values
    value : Value → Values → Values

-- `_is_empty_output`
abbrev pub is_empty_output : Value → Bool
is_empty_output null = true
is_empty_output (text t) = str_eq t ""
is_empty_output (object no_field) = true
is_empty_output (array no_value) = true
is_empty_output _ = false

-- A value that is true in a condition.
abbrev pub is_truthy : Value → Bool
is_truthy (boolean b) = b
is_truthy (integer is_zero t) = not is_zero
is_truthy (number is_zero t) = not is_zero
is_truthy v = not (is_empty_output v)

pub record EvidenceItem : Type 0 where
  pub tool_name : String
  pub status : String
  pub output : Value
  pub error_text : Option String

abbrev pub has_error : Option String → Bool
has_error none = false
has_error (some t) = not (str_eq t "")

abbrev pub is_failure : String → Bool
is_failure status = str_eq status "timeout" || str_eq status "disabled" || str_eq status "forbidden"

abbrev pub assessment : EvidenceQuality → ℕ → EvidenceAssessment
assessment quality confidence = record { quality = quality; confidence = confidence }

-- `EvidenceAssessor.assess`
unfoldable pub assess : EvidenceItem → EvidenceAssessment
assess item =
    if is_failure item.status || has_error item.error_text
    then assessment error 0
    else if str_eq item.status "approval_required"
    then assessment partial 20
    else if str_eq item.status "partial"
    then assessment partial 40
    else if str_eq item.status "weak"
    then assessment weak 35
    else if is_empty_output item.output
    then assessment empty 0
    else assessment strong 80

-- ---------------------------------------------------------------- conflicting root causes

abbrev get_field : String → Fields → Option Value
get_field name no_field = none
get_field name (field k v fs) =
    let rest = get_field name fs in if str_eq k name then some v else rest

abbrev root_cause_value : Value → Option Value
root_cause_value (object fs) = get_field "root_cause" fs
root_cause_value _ = none

abbrev add_cause : Option String → List String → List String
add_cause none causes = causes
add_cause (some c) causes = if contains c causes then causes else c ∷ causes

module _ (normalize : Value → String) where
  abbrev normalized : Option Value → Option String
  normalized none = none
  normalized (some v) =
      if not (is_truthy v) || str_eq (normalize v) "" then none else some (normalize v)

  -- The root cause an item names: `str(root_cause).strip().lower()`, which is `normalize`.
  unfoldable pub root_cause : EvidenceItem → Option String
  root_cause item = normalized (root_cause_value item.output)

  -- The keys of `root_causes`; their order is not read.
  unfoldable pub root_causes : List EvidenceItem → List String
  unfolding root_cause
  root_causes [] = []
  root_causes (item ∷ items) = add_cause (root_cause item) (root_causes items)

  -- `_root_cause_conflict(items) is not None`
  unfoldable pub root_cause_conflict : List EvidenceItem → Bool
  root_cause_conflict items = not (leb (length (root_causes items)) 1)

abbrev pub has_quality : EvidenceQuality → EvidenceAssessment → Bool
has_quality strong a = elim a.quality [ strong ↦ true | _ ↦ false ]
has_quality partial a = elim a.quality [ partial ↦ true | _ ↦ false ]
has_quality weak a = elim a.quality [ weak ↦ true | _ ↦ false ]
has_quality empty a = elim a.quality [ empty ↦ true | _ ↦ false ]
has_quality conflicting a = elim a.quality [ conflicting ↦ true | _ ↦ false ]
has_quality error a = elim a.quality [ error ↦ true | _ ↦ false ]

-- The first assessment of the first of these qualities that occurs, or `default`.
abbrev pub first_of :
    List EvidenceQuality → EvidenceAssessment → List EvidenceAssessment → EvidenceAssessment
first_of [] default items = default
first_of (q ∷ qs) default items =
    let rest = first_of qs default items in
    elim (find? (has_quality q) items) [ none ↦ rest | some a ↦ a ]

abbrev pub preference : List EvidenceQuality
preference = strong ∷ partial ∷ weak ∷ error ∷ []

-- `EvidenceAssessor.assess_many`
unfoldable pub assess_many : (Value → String) → List EvidenceItem → EvidenceAssessment
assess_many normalize [] = assessment empty 0
assess_many normalize (item ∷ items) =
    if root_cause_conflict normalize (item ∷ items)
    then assessment conflicting 0
    else first_of preference (assess item) (map assess (item ∷ items))

-- `EvidenceAssessor.handoff_reason`
abbrev pub handoff_reason_of : EvidenceQuality → String
handoff_reason_of empty = "insufficient_evidence"
handoff_reason_of conflicting = "conflicting_evidence"
handoff_reason_of _ = "evidence_error"

-- ---------------------------------------------------------------- EvidenceItem.from_tool_result

abbrev pub max_tool_output_chars : ℕ
max_tool_output_chars = 4000

-- `t[:n]`
take_chars : ℕ → String → String
take_chars zero t = ""
take_chars (suc n) String.[] = ""
take_chars (suc n) (String.◌∷◌ c t) = String.◌∷◌ c (take_chars n t)

-- A text longer than the limit is cut, with `note` of its length behind it.
unfoldable pub shorten : (ℕ → String) → String → Option String
unfolding take_chars
shorten note t =
    if leb (Text.count t) max_tool_output_chars
    then none
    else some (Text.◌++◌ (take_chars max_tool_output_chars t) (note (Text.count t)))

abbrev keep_unless : Value → Option String → Value
keep_unless v none = v
keep_unless v (some t) = text t

-- `_truncate_output`: `serialize` is `json.dumps`, which a JSON value never refuses.
unfoldable pub truncate_output : (ℕ → String) → (Value → String) → Value → Value
unfolding shorten
truncate_output note serialize null = null
truncate_output note serialize (text t) = keep_unless (text t) (shorten note t)
truncate_output note serialize v = keep_unless v (shorten note (serialize v))
