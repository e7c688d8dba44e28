-- ===== src/RateLimit/Service/Decisions.antt =====
-- The decision on a group of rules.
use nest_backend.Common.{
  ℕ, ◌≤◌, ◌≡◌, refl, sym, ap, ◌⊎◌, inl, inr, List, [], ◌∷◌, ◌++◌, Option, none, some, Bool, true,
  false, ltb, all, All, arith, Bool-cases, Option-cases,
}
use mathlib.Core.List.{append-nil, append_assoc}
use nest_backend.Common.Text.{Text}
use nest_backend.RateLimit.{RateLimitRule, RateLimitResult, RateLimitDecision}
use nest_backend.RateLimit.Service.{tighter, denial, rule_value, evaluate_from, evaluate}

-- A result with the fewest requests left among those of a list, which is empty if there is none.
abbrev pub Among : RateLimitResult → List RateLimitResult → Type 0
Among x [] = ⊥
Among x (y ∷ ys) = (x ≡ y) ⊎ Among x ys

abbrev pub IsTightest : Option RateLimitResult → List RateLimitResult → Type 0
IsTightest none results = results ≡ []
IsTightest (some x) results = Among x results × All (λ y. x.remaining ≤ y.remaining) results

Among-old : (x : RateLimitResult) (xs ys : List RateLimitResult) → Among x xs → Among x (xs ++ ys)
Among-old x [] ys m = elim m [ ]
Among-old x (y ∷ xs) ys (inl e) = inl e
Among-old x (y ∷ xs) ys (inr m) = inr (Among-old x xs ys m)

pub Among-last : (x : RateLimitResult) (xs : List RateLimitResult) → Among x (xs ++ x ∷ [])
Among-last x [] = inl refl
Among-last x (y ∷ xs) = inr (Among-last x xs)

All-last :
    (k : ℕ) (x : RateLimitResult) (xs : List RateLimitResult)
    → All (λ y. k ≤ y.remaining) xs
    → k ≤ x.remaining
    → All (λ y. k ≤ y.remaining) (xs ++ x ∷ [])
All-last k x [] h le = (le, tt)
All-last k x (y ∷ xs) h le = (h.0, All-last k x xs h.1 le)

All-lower :
    (j k : ℕ) (xs : List RateLimitResult)
    → j ≤ k
    → All (λ y. k ≤ y.remaining) xs
    → All (λ y. j ≤ y.remaining) xs
All-lower j k [] le h = tt
All-lower j k (x ∷ xs) le h = (omega (arith, h.0), All-lower j k xs le h.1)

tighter-IsTightest :
    (tightest : Option RateLimitResult) (seen : List RateLimitResult) (x : RateLimitResult)
    → IsTightest tightest seen
    → IsTightest (tighter tightest x) (seen ++ x ∷ [])
tighter-IsTightest none seen x h = rw h (inl refl, (omega arith, tt))
tighter-IsTightest (some y) seen x h = elim (Bool-cases (ltb x.remaining y.remaining)) [
  | inl less ↦
      let lower : x.remaining ≤ y.remaining = ground arith in
      rw less (
        Among-last x seen,
        All-last x.remaining x seen (All-lower x.remaining y.remaining seen lower h.1)
            (omega arith),
      )
  | inr more ↦
      let above : y.remaining ≤ x.remaining = ground arith in
      rw more (Among-old y seen (x ∷ []) h.0, All-last y.remaining x seen h.1 above)
]

-- The last of a list.
abbrev pub EndsWith : RateLimitResult → List RateLimitResult → Type 0
EndsWith x results =
    (front : List RateLimitResult) × (results ≡ front ++ x ∷ [])
    × (all (λ y. y.allowed) front ≡ true)

module _ {State : Type 0} (resolve : RateLimitRule → Option Text)
    (consume : State → RateLimitRule → Text → State × RateLimitResult) where
  -- The results of the rules that count the request, up to the first that denies it.
  abbrev pub results : State → List RateLimitRule → List RateLimitResult
  results s [] = []
  results s (rule ∷ rules) = elim (rule_value resolve rule) [
    | none ↦ results s rules
    | some value ↦ (consume s rule value).1 ∷ elim ((consume s rule value).1.allowed) [
      | false ↦ []
      | true ↦ results (consume s rule value).0 rules
    ]
  ]

  -- An allowed request passed every rule, and the result is the tightest. A denied one was denied by
  -- the last rule that counted it, whose wait is reported.
  abbrev pub Decides : RateLimitDecision → List RateLimitResult → Type 0
  Decides decision seen =
      ((decision.allowed ≡ true)
        × (all (λ y. y.allowed) seen ≡ true)
        × IsTightest decision.result seen)
      ⊎ ((decision.allowed ≡ false)
          × ((x : RateLimitResult) × (x.allowed ≡ false)
              × EndsWith x seen
              × (decision.result ≡ some x)
              × (decision.retry_after_seconds ≡ x.retry_after_seconds)))

  all_passed :
      (x : RateLimitResult) (seen : List RateLimitResult)
      → all (λ y. y.allowed) seen ≡ true
      → x.allowed ≡ true
      → all (λ y. y.allowed) (seen ++ x ∷ []) ≡ true
  all_passed x [] h e = rw e refl
  all_passed x (y ∷ seen) h e = ground (arith, all_passed x seen)

  module _ (s : State) (tightest : Option RateLimitResult) (rule : RateLimitRule)
      (rules : List RateLimitRule) where
    pub at_skipped :
        rule_value resolve rule ≡ none
        → (evaluate_from resolve consume s tightest (rule ∷ rules)
            ≡ evaluate_from resolve consume s tightest rules)
          × (results s (rule ∷ rules) ≡ results s rules)
    at_skipped e = (rw (evaluate_from, e) refl, rw (results, e) refl)

    at_denied :
        (value : Text)
        → rule_value resolve rule ≡ some value
        → (consume s rule value).1.allowed ≡ false
        → (evaluate_from resolve consume s tightest (rule ∷ rules)
            ≡ ((consume s rule value).0, denial (consume s rule value).1))
          × (results s (rule ∷ rules) ≡ (consume s rule value).1 ∷ [])
    at_denied value e denied = (
      rw (evaluate_from, e)
          (ap
            (λ (b : Bool). elim b as (λ x. State × RateLimitDecision) [
              | false ↦ ((consume s rule value).0, denial (consume s rule value).1)
              | true ↦
                  evaluate_from resolve consume (consume s rule value).0
                    (tighter tightest (consume s rule value).1) rules
            ])
            denied),
      rw (results, e)
          (ap
            (λ (b : Bool). (consume s rule value).1 ∷ (elim b as (λ x. List RateLimitResult) [
              | false ↦ []
              | true ↦ results (consume s rule value).0 rules
            ]))
            denied),
    )

    at_allowed :
        (value : Text)
        → rule_value resolve rule ≡ some value
        → (consume s rule value).1.allowed ≡ true
        → (evaluate_from resolve consume s tightest (rule ∷ rules)
            ≡ evaluate_from resolve consume
                (consume s rule value).0
                (tighter tightest (consume s rule value).1)
                rules)
          × (results s (rule ∷ rules)
              ≡ (consume s rule value).1 ∷ results (consume s rule value).0 rules)
    at_allowed value e allowed = (
      rw (evaluate_from, e)
          (ap
            (λ (b : Bool). elim b as (λ x. State × RateLimitDecision) [
              | false ↦ ((consume s rule value).0, denial (consume s rule value).1)
              | true ↦
                  evaluate_from resolve consume (consume s rule value).0
                    (tighter tightest (consume s rule value).1) rules
            ])
            allowed),
      rw (results, e)
          (ap
            (λ (b : Bool). (consume s rule value).1 ∷ (elim b as (λ x. List RateLimitResult) [
              | false ↦ []
              | true ↦ results (consume s rule value).0 rules
            ]))
            allowed),
    )

  evaluate_from-Decides :
      (s : State) (tightest : Option RateLimitResult) (seen : List RateLimitResult)
      (rules : List RateLimitRule)
      → IsTightest tightest seen
      → all (λ y. y.allowed) seen ≡ true
      → Decides (evaluate_from resolve consume s tightest rules).1 (seen ++ results s rules)
  evaluate_from-Decides s tightest seen [] h passed = rw (append-nil seen) (inl (refl, passed, h))
  evaluate_from-Decides s tightest seen (rule ∷ rules) h passed =
      elim (Option-cases (rule_value resolve rule)) [
        | inl skipped ↦
            let same = at_skipped s tightest rule rules skipped in
            rw (same.0, same.1) (evaluate_from-Decides s tightest seen rules h passed)
        | inr (value, e) ↦
            let x = (consume s rule value).1 in
            elim (Bool-cases x.allowed) [
              | inr denied ↦
                  let same = at_denied s tightest rule rules value e denied in
                  rw (same.0, same.1) (inr (refl, (x, denied, (seen, refl, passed), refl, refl)))
              | inl allowed ↦
                  let same = at_allowed s tightest rule rules value e allowed in
                  rw
                    (
                      same.0,
                      same.1,
                      sym (append_assoc seen (x ∷ []) (results (consume s rule value).0 rules)),
                    )
                    (evaluate_from-Decides (consume s rule value).0 (tighter tightest x)
                      (seen ++ x ∷ []) rules (tighter-IsTightest tightest seen x h)
                      (all_passed x seen passed allowed))
            ]
      ]

  -- For any rules, the evaluation allows a request exactly when every rule that counts it allows
  -- it, and then reports a result with the fewest requests left, or none if no rule counts it;
  -- otherwise the last rule that counts it is the first that denies it, and its result and its
  -- wait are reported.
  pub evaluate-Decides :
      (s : State) (rules : List RateLimitRule)
      → Decides (evaluate resolve consume s rules).1 (results s rules)
  unfolding evaluate
  evaluate-Decides s rules = evaluate_from-Decides s none [] rules refl refl
