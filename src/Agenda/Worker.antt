-- ===== src/Agenda/Worker.antt =====
-- `task_executor::operator()`: a claimed task is tried up to ten times.
use extremes.Base.{
  ℕ, zero, suc, ◌<◌, ◌≡◌, ap, ◌↔◌, ◌⊎◌, inl, inr, Bool, true, false, Bool-cases, arith,
}
use extremes.Errors.{
  err_fatal, Exception, es3_exception, std_exception, unknown_exception, Result, ok, throw,
}

-- The body of a task changes the world `S`, also where it throws.
abbrev pub Body : Type 0 → Type 0
Body S = S → Result (Unit {0}) × S

-- The `catch` clauses: whether the next round of the loop follows.
abbrev pub is_retried : Exception → Bool
is_retried (es3_exception r) = elim r.code [ err_fatal ↦ false | _ ↦ true ]
is_retried std_exception = false
is_retried unknown_exception = false

abbrev pub IsOk : Result (Unit {0}) → Type 0
IsOk (ok _) = Unit
IsOk (throw e) = ⊥

abbrev pub retried : Result (Unit {0}) → Bool
retried (ok _) = false
retried (throw e) = is_retried e

abbrev IsOver : Result (Unit {0}) → Type 0
IsOver r = (retried r ≡ false) × ¬ IsOk r

result-cases : (r : Result (Unit {0})) → IsOk r ⊎ (retried r ≡ true) ⊎ IsOver r
result-cases (ok _) = inl tt
result-cases (throw e) = elim (Bool-cases (is_retried e)) [
  | inl again ↦ inr (inl again)
  | inr over ↦ inr (inr (over, λ h. h))
]

abbrev pub max_attempts : ℕ
max_attempts = 10

module _ {S : Type 0} where
  -- The `for` loop with the rounds that are left; the result is `fail`.
  unfoldable pub attempts : ℕ → Body S → S → Bool × S
  attempts zero body s = (true, s)
  attempts (suc left) body s =
      let (r, s') = body s in
      elim r [
        | ok _ ↦ (false, s')
        | throw e ↦ elim (is_retried e) [ true ↦ attempts left body s' | false ↦ (true, s') ]
      ]

  unfoldable pub run_task : Body S → S → Bool × S
  unfolding attempts
  run_task body s = attempts max_attempts body s

  pub attempts-again :
      (left : ℕ) (body : Body S) (s s' : S) (e : Exception)
      → body s ≡ (throw e, s')
      → is_retried e ≡ true
      → attempts (suc left) body s ≡ attempts left body s'
  unfolding attempts
  attempts-again left body s s' e h again =
      rw (attempts, h, again) (ap (λ r. attempts left body (r.1)) h)

  pub attempts-ok :
      (left : ℕ) (body : Body S) (s s' : S)
      → body s ≡ (ok tt, s')
      → attempts (suc left) body s ≡ (false, s')
  unfolding attempts
  attempts-ok left body s s' h = rw (attempts, h) (ap (λ r. (false, r.1)) h)

  -- The world before round `k`, where every round follows.
  abbrev pub before : Body S → ℕ → S → S
  before body zero s = s
  before body (suc k) s = before body k (body s).1

  -- Round `k` is the first that is not followed by another.
  abbrev pub Reaches : Body S → ℕ → S → Type 0
  Reaches body k s = (j : ℕ) → j < k → retried (body (before body j s)).0 ≡ true

  Reaches-suc :
      (body : Body S) (k : ℕ) (s : S)
      → retried (body s).0 ≡ true
      → Reaches body k (body s).1
      → Reaches body (suc k) s
  Reaches-suc body k s e h zero lt = e
  Reaches-suc body k s e h (suc j) lt = h j (omega arith)

  attempts-false :
      (n : ℕ) (body : Body S) (s : S)
      → (attempts n body s).0 ≡ false
      → (k : ℕ) × (k < n) × (IsOk (body (before body k s)).0) × Reaches body k s
  unfolding attempts
  attempts-false zero body s h = cc
  attempts-false (suc n) body s h = elim (result-cases (body s).0) [
    | inl fine ↦ (0, omega arith, fine, λ j lt. absurd (omega arith))
    | inr (inl again) ↦
        let (k, lt, fine, r) = attempts-false n body (body s).1 (ground arith) in
        (suc k, omega arith, fine, Reaches-suc body k s again r)
    | inr (inr over) ↦ ground arith
  ]

  attempts-of_round :
      (n k : ℕ) (body : Body S) (s : S)
      → k < n
      → IsOk (body (before body k s)).0
      → Reaches body k s
      → (attempts n body s).0 ≡ false
  unfolding attempts
  attempts-of_round zero k body s h fine r = absurd (omega arith)
  attempts-of_round (suc n) zero body s h fine r = ground arith
  attempts-of_round (suc n) (suc k) body s h fine r = ground (
    arith,
    r 0 (omega arith),
    attempts-of_round n k body (body s).1 (omega arith) fine (λ j lt. r (suc j) (omega arith)),
  )

  -- A task counts as done exactly when one of its first ten rounds returns and every round before
  -- that one ended in an exception that is retried (an `es3_exception` below the fatal level).
  run_task-false :
      (body : Body S) (s : S)
      → ((run_task body s).0 ≡ false)
        ↔ ((k : ℕ) × (k < 10) × IsOk (body (before body k s)).0 × Reaches body k s)
  unfolding run_task
  run_task-false body s =
      (attempts-false 10 body s, λ (k, lt, fine, r). attempts-of_round 10 k body s lt fine r)
