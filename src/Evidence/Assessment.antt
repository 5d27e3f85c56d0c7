-- ===== src/Evidence/Assessment.antt =====
-- What the assessment of several tool results (app/agent_runtime/evidence.py) chooses.
use mathlib.Core.Path.{subst}
use smart_sre_copilot.Prelude.{
  ℕ, suc, ◌≤◌, ◌<◌, String, ◌≡◌, ◌≢◌, ◌⊎◌, inl, inr, refl, sym, ap, ◌∙◌, true, false, Option, none,
  some, List, [], ◌∷◌, map, arith, eq_iff, eq_refl, leb, Bool-cases, Option-cases, find?, contains,
  length,
}
use smart_sre_copilot.Decision.{
  EvidenceQuality, strong, partial, weak, empty, conflicting, error, EvidenceAssessment,
}
use smart_sre_copilot.Decision.Provider.{Elem}
use smart_sre_copilot.Evidence.{
  Value, EvidenceItem, assess, assess_many, assessment, first_of, has_quality, preference,
  root_cause, root_causes, root_cause_conflict, add_cause,
}

-- The order in which `assess_many` looks for a quality.
abbrev pub preference_rank : EvidenceQuality → ℕ
preference_rank strong = 0
preference_rank partial = 1
preference_rank weak = 2
preference_rank error = 3
preference_rank _ = 4

abbrev pub PrefersOver : EvidenceAssessment → EvidenceAssessment → Type 0
PrefersOver a b = preference_rank a.quality ≤ preference_rank b.quality

find?-Elem :
    (q : EvidenceQuality) (items : List EvidenceAssessment) (a : EvidenceAssessment)
    → find? (has_quality q) items ≡ some a
    → Elem a items × (has_quality q a ≡ true)
find?-Elem q [] a h = cc
find?-Elem q (x ∷ xs) a h = elim (Bool-cases (has_quality q x)) [
  | inl e ↦
      let same : x ≡ a = ground (arith, e) in (inl (sym same), ap (has_quality q) (sym same) ∙ e)
  | inr e ↦ let (at, has) = find?-Elem q xs a (rw (e, find?) at h) in (inr at, has)
]

find?-lacks :
    (q : EvidenceQuality) (items : List EvidenceAssessment) (b : EvidenceAssessment)
    → find? (has_quality q) items ≡ none
    → Elem b items
    → has_quality q b ≡ false
find?-lacks q [] b h m = elim m [ ]
find?-lacks q (x ∷ xs) b h m = elim (Bool-cases (has_quality q x)) [
  | inl e ↦ ground (arith, e, h)
  | inr e ↦ elim m [
    | inl same ↦ ap (has_quality q) same ∙ e
    | inr later ↦ find?-lacks q xs b (ground (arith, e, h)) later
  ]
]

quality_of : (q : EvidenceQuality) (a : EvidenceAssessment) → has_quality q a ≡ true → a.quality ≡ q
quality_of q a h = ground (arith, h)

-- The result is among the assessments, and none of them is preferred to it.
abbrev pub IsPreferred : EvidenceAssessment → List EvidenceAssessment → Type 0
IsPreferred r items = Elem r items × ((b : EvidenceAssessment) → Elem b items → PrefersOver r b)

-- a quality that none has raises the least rank there can be
next_rank :
    (q : EvidenceQuality) (b : EvidenceAssessment)
    → preference_rank q ≤ preference_rank b.quality
    → preference_rank q < 4
    → has_quality q b ≡ false
    → suc (preference_rank q) ≤ preference_rank b.quality
next_rank strong b r f l = ground (arith, l)
next_rank partial b r f l = ground (arith, l)
next_rank weak b r f l = ground (arith, l)
next_rank error b r f l = ground (arith, l)
next_rank empty b r f l = omega arith
next_rank conflicting b r f l = omega arith

rank_le : (a : EvidenceAssessment) → preference_rank a.quality ≤ 4
rank_le a = ground arith

module _ (items : List EvidenceAssessment) where
  abbrev Bounds : ℕ → Type 0
  Bounds n = (b : EvidenceAssessment) → Elem b items → n ≤ preference_rank b.quality

  first_step :
      (q : EvidenceQuality) (qs : List EvidenceQuality) (default : EvidenceAssessment)
      → preference_rank q < 4
      → Bounds (preference_rank q)
      → (Bounds (suc (preference_rank q)) → IsPreferred (first_of qs default items) items)
      → IsPreferred (first_of (q ∷ qs) default items) items
  first_step q qs default f bounds rest = elim (Option-cases (find? (has_quality q) items)) [
    | inl e ↦
        rw (e, first_of) (rest (λ b m. next_rank q b (bounds b m) f (find?-lacks q items b e m)))
    | inr (a, e) ↦
        let (m, has) = find?-Elem q items a e in
        rw (e, first_of) (m, λ b n. rw (quality_of q a has) (bounds b n))
  ]

  first_of-IsPreferred :
      (default : EvidenceAssessment)
      → Elem default items
      → IsPreferred (first_of preference default items) items
  first_of-IsPreferred default m =
      first_step strong (partial ∷ weak ∷ error ∷ []) default (omega arith) (λ b n. omega arith)
        (λ b1. first_step partial (weak ∷ error ∷ []) default (omega arith) b1 (λ b2.
          first_step weak (error ∷ []) default (omega arith) b2 (λ b3.
            first_step error [] default (omega arith) b3
              (λ b4. (m, λ b n. omega (arith, rank_le default, b4 b n))))))

agreeing :
    (normalize : Value → String) (item : EvidenceItem) (items : List EvidenceItem)
    → root_cause_conflict normalize (item ∷ items) ≡ false
    → assess_many normalize (item ∷ items)
      ≡ first_of preference (assess item) (map assess (item ∷ items))
unfolding assess_many
agreeing normalize item items h = rw h refl

-- When no two items name different root causes, the assessment of several items is the assessment
-- of one of them, and no other is preferred to it: strong before partial before weak before error.
pub assess_many-IsPreferred :
    (normalize : Value → String) (item : EvidenceItem) (items : List EvidenceItem)
    → root_cause_conflict normalize (item ∷ items) ≡ false
    → IsPreferred (assess_many normalize (item ∷ items)) (map assess (item ∷ items))
assess_many-IsPreferred normalize item items h =
    subst (λ r. IsPreferred r (map assess (item ∷ items))) (sym (agreeing normalize item items h))
      (first_of-IsPreferred (map assess (item ∷ items)) (assess item) (inl refl))

-- ---------------------------------------------------------------- conflicts

only_name : (x c : String) → contains c (x ∷ []) ≡ true → x ≡ c
only_name x c h = ground (arith, eq_iff x c, h)

two_contained :
    (c d : String) (names : List String)
    → contains c names ≡ true
    → contains d names ≡ true
    → c ≢ d
    → 2 ≤ length names
two_contained c d [] h k n = cc
two_contained c d (x ∷ []) h k n = absurd (n (sym (only_name x c h) ∙ only_name x d k))
two_contained c d (x ∷ y ∷ names) h k n = omega arith

add_cause-contains :
    (o : Option String) (c : String) (names : List String)
    → (o ≡ some c) ⊎ (contains c names ≡ true)
    → contains c (add_cause o names) ≡ true
add_cause-contains none c names h = ground arith
add_cause-contains (some b) c names h = ground (arith, eq_refl c)

-- The item is one of the items.
abbrev pub IsAmong : EvidenceItem → List EvidenceItem → Type 0
IsAmong item [] = ⊥
IsAmong item (x ∷ xs) = (item ≡ x) ⊎ IsAmong item xs

module _ (normalize : Value → String) where
  root_causes-contains :
      (item : EvidenceItem) (c : String) (items : List EvidenceItem)
      → IsAmong item items
      → root_cause normalize item ≡ some c
      → contains c (root_causes normalize items) ≡ true
  unfolding root_causes
  root_causes-contains item c [] m h = elim m [ ]
  root_causes-contains item c (x ∷ xs) m h =
      add_cause-contains (root_cause normalize x) c (root_causes normalize xs) (elim m [
        | inl same ↦ inl (ap (root_cause normalize) (sym same) ∙ h)
        | inr later ↦ inr (root_causes-contains item c xs later h)
      ])

  -- Two tool results among the items that name different root causes make the assessment of the
  -- items `conflicting`, with confidence 0, whatever else was found.
  pub assess_many_conflict :
      (a b : EvidenceItem) (c d : String) (items : List EvidenceItem)
      → IsAmong a items
      → IsAmong b items
      → root_cause normalize a ≡ some c
      → root_cause normalize b ≡ some d
      → c ≢ d
      → assess_many normalize items ≡ assessment conflicting 0
  unfolding assess_many root_cause_conflict
  assess_many_conflict a b c d [] m k h i n = elim m [ ]
  assess_many_conflict a b c d (item ∷ items) m k h i n =
      let two =
        two_contained c d (root_causes normalize (item ∷ items))
          (root_causes-contains a c (item ∷ items) m h)
          (root_causes-contains b d (item ∷ items) k i) n in
      let many : leb (length (root_causes normalize (item ∷ items))) 1 ≡ false =
        ground (arith, two) in
      rw many refl
