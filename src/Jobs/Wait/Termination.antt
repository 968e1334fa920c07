-- ===== src/Jobs/Wait/Termination.antt =====
-- How the wait for a job ends.
use cnaas_nms.Prelude.{
  ℕ, zero, suc, ◌+◌, ◌-◌, ◌≤◌, ◌<◌, ◌≡◌, refl, true, false, Option, none, some, List, [], ◌∷◌,
  arith, any, ltb, ◌⊎◌, inl, inr, Option-cases, Bool-cases, if◌then◌else◌, ltb→lt,
}
use cnaas_nms.Prelude.Exec.{Result, ok, err, timeout_error, no_result_found}
use cnaas_nms.Schema.{JobStatus, status_eq}
use cnaas_nms.Jobs.Wait.{wait_loop, wait_for_job_completion, exit_statuses, is_in}

-- The statuses that are waited for: those that are given, else the three in which a job has ended.
abbrev pub awaited : List JobStatus → List JobStatus
awaited [] = JobStatus.finished ∷ JobStatus.exception ∷ JobStatus.aborted ∷ []
awaited (s ∷ ss) = s ∷ ss

module _ (poll : ℕ → Option JobStatus) (clock : ℕ → ℕ) (start_time timeout : ℕ)
    (exits : List JobStatus) where
  -- The row is there at that look, in a status that is not waited for.
  abbrev pub GoesOn : ℕ → Type 0
  GoesOn n =
      (status : JobStatus) × (poll n ≡ some status) × (any (λ s. status_eq status s) exits ≡ false)

  -- The look at which the wait ends: the row is in a status that is waited for; or it is gone; or it
  -- is in none of them and the time is up.
  abbrev pub EndsAt : ℕ → Result (Unit {0}) → Type 0
  EndsAt n (ok _) =
      (status : JobStatus) × (poll n ≡ some status) × (any (λ s. status_eq status s) exits ≡ true)
  EndsAt n (err e) =
      (e ≡ no_result_found) × (poll n ≡ none)
      ⊎ (e ≡ timeout_error) × GoesOn n × (timeout < clock n - start_time)

  -- A look after which there is another one.
  abbrev pub Waits : ℕ → Type 0
  Waits n = GoesOn n × (clock n - start_time ≤ timeout)

  -- The wait ends at the first look at which there is a reason to end, `timeout + 2` looks at most
  -- being taken.
  abbrev pub Outcome : Result (Unit {0}) → Type 0
  Outcome r = (n : ℕ) × (n ≤ timeout + 1) × EndsAt n r × ((m : ℕ) → m < n → Waits m)

-- The looks before `suc n` are those before `n`, and `n`.
one_more_look : (P : ℕ → Type 0) (n : ℕ) → ((m : ℕ) → m < n → P m) → P n → (m : ℕ) → m < n + 1 → P m
one_more_look P n before here m h = elim (Bool-cases (ltb m n)) [
  | inl e ↦ before m (ltb→lt m n e)
  | inr e ↦ let same : n ≡ m = ground (arith, e, h) in rw (← same) here
]

module _ (poll : ℕ → Option JobStatus) (clock : ℕ → ℕ) (start_time timeout : ℕ)
    (exits : List JobStatus) (passes : (n : ℕ) → start_time + n ≤ clock n) where
  -- At a look at row status `status`, with the outcome of the later looks at hand.
  look :
      (rest : Option (Result (Unit {0}))) (n : ℕ) (status : JobStatus)
      → n ≤ timeout + 1
      → poll n ≡ some status
      → ((m : ℕ) → m < n → Waits poll clock start_time timeout exits m)
      → (Waits poll clock start_time timeout exits n
          → (r : Result (Unit {0})) × (rest ≡ some r)
            × Outcome poll clock start_time timeout exits r)
      → (r : Result (Unit {0})) × ((if is_in status exits
            then some (ok tt)
            else if ltb timeout (clock n - start_time)
            then some (err timeout_error)
            else rest)
          ≡ some r)
        × Outcome poll clock start_time timeout exits r
  look rest n status b seen before later = elim (Bool-cases (is_in status exits)) [
    | inl e ↦ (ok tt, rw e, (n, b, (status, seen, e), before))
    | inr e ↦ elim (Bool-cases (ltb timeout (clock n - start_time))) [
      | inl late ↦ (
        err timeout_error,
        rw (e, late),
        (n, b, inr (refl, (status, seen, e), ltb→lt _ _ late), before),
      )
      | inr early ↦
          let (r, is, out) = later ((status, seen, e), ground (arith, early)) in
          (r, rw (e, early) is, out)
    ]
  ]

  wait_loop_ends :
      (fuel n : ℕ)
      → n ≤ timeout + 1
      → timeout + 1 < n + fuel
      → ((m : ℕ) → m < n → Waits poll clock start_time timeout exits m)
      → (r : Result (Unit {0})) × (wait_loop poll clock start_time timeout exits fuel n ≡ some r)
        × Outcome poll clock start_time timeout exits r
  unfolding wait_loop
  wait_loop_ends zero n b h before = absurd (omega arith)
  wait_loop_ends (suc fuel) n b h before = elim (Option-cases (poll n)) [
    | inl gone ↦ (err no_result_found, ground (arith, gone), (n, b, inl (refl, gone), before))
    | inr (status, seen) ↦
        let (r, is, out) =
          look (wait_loop poll clock start_time timeout exits fuel (n + 1)) n status b seen before
            (λ waits.
              wait_loop_ends fuel (n + 1) (omega (arith, passes n, waits.1)) (omega arith)
                (one_more_look (Waits poll clock start_time timeout exits) n before waits)) in
        (r, ground (arith, seen, is), out)
  ]

exit_statuses_lem : (exits : List JobStatus) → exit_statuses exits ≡ awaited exits
unfolding exit_statuses
exit_statuses_lem [] = refl
exit_statuses_lem (s ∷ ss) = refl

-- With a clock that advances a second from look to look, the wait ends within `timeout + 2` looks, and
-- at the first of them at which there is a reason: it returns where the job's row is in one of the
-- statuses that are given, or else FINISHED, EXCEPTION or ABORTED; it raises where the row is gone, or
-- where more than `timeout` seconds have passed and the row is in none of these statuses. At every
-- earlier look the row was there in another status, and no more than `timeout` seconds had passed.
pub wait_for_job_completion_ends :
    (poll : ℕ → Option JobStatus) (clock : ℕ → ℕ) (timeout : ℕ) (exit_status : List JobStatus)
    → ((n : ℕ) → clock 0 + n ≤ clock n)
    → (r : Result (Unit {0})) × (wait_for_job_completion poll clock timeout exit_status ≡ some r)
      × Outcome poll clock (clock 0) timeout (awaited exit_status) r
unfolding wait_for_job_completion
wait_for_job_completion_ends poll clock timeout exit_status passes =
    rw (exit_statuses_lem exit_status) (
      wait_loop_ends poll clock (clock 0) timeout (awaited exit_status) passes (timeout + 2) 0
        (omega arith) (omega arith) (λ m h. absurd (omega (arith, h))))
