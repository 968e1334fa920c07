-- ===== src/Jobs/History/Newest.antt =====
-- Which job the query for an earlier configuration finds.
use cnaas_nms.Prelude.{
  ℕ, ◌≤◌, String, ◌≡◌, refl, sym, ap, ◌∙◌, Bool, true, false, Option, none, some, List, [], ◌∷◌,
  arith, All, select, ltb, if◌then◌else◌, Option-cases, Bool-cases, inl, inr,
}
use mathlib.Core.Path.{subst}
use cnaas_nms.Prelude.Exec.{err, job_not_found}
use cnaas_nms.Schema.{Job}
use cnaas_nms.Jobs.History.{
  is_sync_of, insert_desc, order_desc, query_previous, get_previous_config, job_result, head?,
}

abbrev larger : Job → Option Job → Option Job
larger x none = some x
larger x (some j) = if ltb x.id j.id then some j else some x

head-insert_desc : (x : Job) (js : List Job) → head? (insert_desc x js) ≡ larger x (head? js)
unfolding insert_desc
head-insert_desc x [] = refl
head-insert_desc x (j ∷ js) = ground arith

head-order_desc-none : (js : List Job) → head? (order_desc js) ≡ none → js ≡ []
unfolding order_desc
head-order_desc-none [] h = refl
head-order_desc-none (x ∷ js) h = ground (arith, head-insert_desc x (order_desc js))

All-weaken : (m n : ℕ) (js : List Job) → m ≤ n → All (λ k. k.id ≤ m) js → All (λ k. k.id ≤ n) js
All-weaken m n [] h a = tt
All-weaken m n (j ∷ js) h a = (omega arith, All-weaken m n js h a.1)

-- One step of the ordering: the head is the new row, or the old head if that has a larger id.
larger_sound :
    (P : Job → Type 0) (x k j : Job) (js : List Job)
    → larger x (some k) ≡ some j
    → P x
    → P k
    → All (λ i. i.id ≤ k.id) js
    → P j × All (λ i. i.id ≤ j.id) (x ∷ js)
larger_sound P x k j js h px pk a = elim (Bool-cases (ltb x.id k.id)) [
  | inl lt ↦
      let e : k ≡ j = ground (arith, lt) in
      subst (λ i. P i × All (λ i'. i'.id ≤ i.id) (x ∷ js)) e (pk, (ground arith, a))
  | inr ge ↦
      let e : x ≡ j = ground (arith, ge) in
      subst (λ i. P i × All (λ i'. i'.id ≤ i.id) (x ∷ js)) e
        (px, (ground arith, All-weaken k.id x.id js (ground arith) a))
]

-- The head of the ordered rows is one of the rows, and none has a larger id.
head-order_desc :
    (P : Job → Type 0) (js : List Job) (j : Job)
    → head? (order_desc js) ≡ some j
    → All P js
    → P j × All (λ k. k.id ≤ j.id) js
unfolding order_desc
head-order_desc P [] j h a = cc
head-order_desc P (x ∷ js) j h a =
    let step = sym (head-insert_desc x (order_desc js)) ∙ h in
    elim (Option-cases (head? (order_desc js))) [
      | inl none_left ↦
          let e : x ≡ j = ground (arith, step, none_left) in
          (
            subst P e a.0,
            subst (λ l. All (λ k. k.id ≤ j.id) (x ∷ l)) (sym (head-order_desc-none js none_left))
                (subst (λ i. x.id ≤ i.id) e (omega arith), tt),
          )
      | inr (k, found) ↦
          let (pk, below) = head-order_desc P js k found a.1 in
          larger_sound P x k j js (ap (larger x) (sym found) ∙ step) a.0 pk below
    ]

-- The rows that pass the filter.
All-select : (p : Job → Bool) (js : List Job) → All (λ k. p k ≡ true) (select p js)
All-select p [] = tt
All-select p (j ∷ js) = elim (Bool-cases (p j)) [
  | inl e ↦ rw e (e, All-select p js)
  | inr e ↦ rw e (All-select p js)
]

All-of-select :
    (p : Job → Bool) (n : ℕ) (js : List Job)
    → All (λ k. k.id ≤ n) (select p js)
    → All (λ k. p k ≡ true → k.id ≤ n) js
All-of-select p n [] a = tt
All-of-select p n (j ∷ js) a = elim (Bool-cases (p j)) [
  | inl e ↦
      let a' : All (λ k. k.id ≤ n) (j ∷ select p js) = rw e at a in
      (λ _. a'.0, All-of-select p n js a'.1)
  | inr e ↦
      let a' : All (λ k. k.id ≤ n) (select p js) = rw e at a in
      (λ t. absurd (ground arith), All-of-select p n js a')
]

-- With no selector the query finds a sync job that holds the device, and the one with the largest
-- id of all such jobs.
pub query_previous_newest :
    (hostname : String) (jobs : List Job) (job : Job)
    → query_previous hostname none none none jobs ≡ some job
    → (is_sync_of hostname job ≡ true)
      × All (λ j. is_sync_of hostname j ≡ true → j.id ≤ job.id) jobs
unfolding query_previous
query_previous_newest hostname jobs job h =
    let syncs = select (is_sync_of hostname) jobs in
    let (is_sync, below) =
      head-order_desc (λ j. is_sync_of hostname j ≡ true) syncs job h
        (All-select (is_sync_of hostname) jobs) in
    (is_sync, All-of-select (is_sync_of hostname) job.id jobs below)

select_empty : (p : Job → Bool) (js : List Job) → select p js ≡ [] → All (λ k. p k ≡ false) js
select_empty p [] h = tt
select_empty p (j ∷ js) h = elim (Bool-cases (p j)) [
  | inl e ↦ absurd (ground arith)
  | inr e ↦ (e, select_empty p js (ground arith))
]

job_result_not_found :
    (hostname : String) (found : Option Job)
    → job_result hostname found ≡ err job_not_found
    → found ≡ none
unfolding job_result
job_result_not_found hostname found h = ground arith

-- "No matching job found" is raised, when no selector is given, only if no sync job holds the
-- device.
pub get_previous_config_not_found :
    (hostname : String) (jobs : List Job)
    → get_previous_config hostname none none none jobs ≡ err job_not_found
    → All (λ j. is_sync_of hostname j ≡ false) jobs
unfolding get_previous_config
get_previous_config_not_found hostname jobs h =
    let syncs = select (is_sync_of hostname) jobs in
    let none_found : head? (order_desc syncs) ≡ none = job_result_not_found hostname _ h in
    select_empty (is_sync_of hostname) jobs (head-order_desc-none syncs none_found)
