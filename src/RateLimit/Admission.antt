-- ===== src/RateLimit/Admission.antt =====
-- How many requests the rate limiter admits (app/security/rate_limit.py).
use mathlib.Core.Path.{subst}
use native.Mathlib.Nat.{add-mul, mul-suc}
use smart_sre_copilot.Prelude.{
  ℕ, zero, suc, ◌+◌, ◌-◌, ◌*◌, ◌≤◌, String, ◌≡◌, refl, sym, ap, ◌∙◌, inl, inr, Bool, true, false,
  some, List, [], ◌∷◌, ltb, str_eq, eq_iff, if◌then◌else◌, arith, Bool-cases, lookup, lookup-insert,
}
use smart_sre_copilot.RateLimit.{
  RateLimitPolicy, Bucket, token, refill, capacity, refilled, take_token, admit, allow,
}

abbrev pub count : Bool → ℕ
count true = 1
count false = 0

-- The requests admitted for `key`, of requests by key and time.
unfoldable pub served : String → RateLimitPolicy → List (String × ℕ) → List (String × Bucket) → ℕ
served key p [] buckets = 0
served key p ((k, now) ∷ requests) buckets =
    let answer = allow k p now buckets in
    let later = served key p requests answer.1 in
    (if str_eq k key then count answer.0 else 0) + later

-- The times do not decrease, from `start` on, and none is behind `end`.
abbrev pub IsOrdered : ℕ → ℕ → List (String × ℕ) → Type 0
IsOrdered start end [] = start ≤ end
IsOrdered start end ((k, now) ∷ requests) = (start ≤ now) × IsOrdered now end requests

end-le : (start end : ℕ) (requests : List (String × ℕ)) → IsOrdered start end requests → start ≤ end
end-le start end [] s = s
end-le start end ((k, now) ∷ requests) (l, s) = omega (arith, l, end-le now end requests s)

earlier :
    (u start end : ℕ) (requests : List (String × ℕ))
    → u ≤ start
    → IsOrdered start end requests
    → IsOrdered u end requests
earlier u start end [] l s = omega (arith, l, s)
earlier u start end ((k, now) ∷ requests) l (m, s) = (omega (arith, l, m), s)

same_text : (a b : String) → str_eq a b ≡ true → a ≡ b
same_text a b h = ground (arith, eq_iff a b, h)

split_time : (u t e r : ℕ) → u ≤ t → t ≤ e → (t - u) * r + (e - t) * r ≡ (e - u) * r
split_time u t e r h k =
    let whole : (t - u) + (e - t) ≡ e - u = omega (arith, h, k) in
    sym (add-mul (t - u) (e - t) r) ∙ ap (λ d. d * r) whole

take-le : (b : Bucket) → count (take_token b).0 * token + (take_token b).1.tokens ≤ b.tokens
unfolding take_token
take-le b = elim (Bool-cases (ltb b.tokens token)) [
  | inl e ↦ rw e (omega arith)
  | inr e ↦ rw e (ground arith)
]

take-updated_at : (b : Bucket) → (take_token b).1.updated_at ≡ b.updated_at
unfolding take_token
take-updated_at b = elim (Bool-cases (ltb b.tokens token)) [ inl e ↦ rw e refl | inr e ↦ rw e refl ]

module _ (p : RateLimitPolicy) where
  admit-le :
      (now : ℕ) (b : Bucket)
      → let answer = admit p now (some b) in
        count answer.0 * token + answer.1.tokens ≤ b.tokens + (now - b.updated_at) * refill p
  unfolding admit
  admit-le now b = omega (arith, take-le (refilled p now b))

  admit-updated_at : (now : ℕ) (b : Bucket) → (admit p now (some b)).1.updated_at ≡ now
  unfolding admit
  admit-updated_at now b = take-updated_at (refilled p now b)

module _ (key : String) (p : RateLimitPolicy) where
  allow-same :
      (k : String) (now : ℕ) (buckets : List (String × Bucket))
      → str_eq k key ≡ true
      → lookup key (allow k p now buckets).1 ≡ some (admit p now (lookup k buckets)).1
  unfolding allow
  allow-same k now buckets e =
      sym (lookup-insert k key (admit p now (lookup k buckets)).1 buckets) ∙ rw e refl

  allow-other :
      (k : String) (now : ℕ) (buckets : List (String × Bucket))
      → str_eq k key ≡ false
      → lookup key (allow k p now buckets).1 ≡ lookup key buckets
  unfolding allow
  allow-other k now buckets e =
      sym (lookup-insert k key (admit p now (lookup k buckets)).1 buckets) ∙ rw e refl

  count_allow :
      (k : String) (now : ℕ) (buckets : List (String × Bucket)) (b : Bucket)
      → lookup k buckets ≡ some b
      → count (allow k p now buckets).0 ≡ count (admit p now (some b)).0
  unfolding allow
  count_allow k now buckets b l = ap (λ o. count (admit p now o).0) l

  served-le :
      (end : ℕ) (requests : List (String × ℕ)) (buckets : List (String × Bucket)) (b : Bucket)
      → lookup key buckets ≡ some b
      → IsOrdered b.updated_at end requests
      → served key p requests buckets * token ≤ b.tokens + (end - b.updated_at) * refill p
  unfolding served
  served-le end [] buckets b l s = omega arith
  served-le end ((k, now) ∷ requests) buckets b l (m, s) = elim (Bool-cases (str_eq k key)) [
    | inl e ↦
        let found : lookup k buckets ≡ some b =
          ap (λ x. lookup x buckets) (same_text k key e) ∙ l in
        let kept = allow-same k now buckets e ∙ ap (λ o. some (admit p now o).1) found in
        let a = admit p now (some b) in
        let at_now = admit-updated_at p now b in
        let ordered = subst (λ u. IsOrdered u end requests) (sym at_now) s in
        let later =
          subst
            (λ u.
              served key p requests (allow k p now buckets).1 * token
              ≤ a.1.tokens + (end - u) * refill p)
            at_now (served-le end requests (allow k p now buckets).1 a.1 kept ordered) in
        let answered = count_allow k now buckets b found in
        rw e (
          omega (
            arith,
            answered,
            later,
            admit-le p now b,
            split_time b.updated_at now end (refill p) m (end-le now end requests s),
          ))
    | inr e ↦ rw e (
        omega (
          arith,
          served-le end requests (allow k p now buckets).1 b (allow-other k now buckets e ∙ l)
              (earlier b.updated_at now end requests m s),
        ))
  ]

  -- Of the requests of a caller between two times, from a moment on at which the caller's bucket is
  -- not overfull, with the requests of other callers in between, the limiter admits at most
  -- the capacity and what is refilled in the time between: in units, of which 60000 are a request.
  pub served_bounded :
      (end : ℕ) (requests : List (String × ℕ)) (buckets : List (String × Bucket)) (b : Bucket)
      → lookup key buckets ≡ some b
      → b.tokens ≤ capacity p
      → IsOrdered b.updated_at end requests
      → served key p requests buckets * token ≤ capacity p + (end - b.updated_at) * refill p
  served_bounded end requests buckets b l full s =
      omega (arith, full, served-le end requests buckets b l s)

le_mul : (d r : ℕ) → 1 ≤ r → d ≤ d * r
le_mul d zero h = omega (arith, h)
le_mul d (suc r) h = omega (arith, mul-suc d r)

-- A caller whose bucket was not used for a minute is admitted, whatever the policy.
pub rested_is_admitted :
    (key : String) (p : RateLimitPolicy) (now : ℕ) (buckets : List (String × Bucket)) (b : Bucket)
    → lookup key buckets ≡ some b
    → b.updated_at + 60000 ≤ now
    → (allow key p now buckets).0 ≡ true
unfolding allow admit take_token
rested_is_admitted key p now buckets b l rest =
    let filled : token ≤ (refilled p now b).tokens =
      omega (arith, le_mul (now - b.updated_at) (refill p) (omega arith)) in
    let enough : ltb (refilled p now b).tokens token ≡ false = ground (arith, filled) in
    ap (λ o. (admit p now o).0) l ∙ rw enough refl
