-- ===== src/Jobs/Joblock/Exclusion.antt =====
-- Mutual exclusion by locks.
use cnaas_nms.Prelude.{
  ℕ, String, ◌≡◌, ◌≢◌, refl, sym, ◌∙◌, str_eq_refl, suc, true, false, Option, none, some, List, [],
  ◌∷◌, ◌++◌, arith, eq_iff, Option-cases, All, first_sound, first-select, first-append,
  first-append_none, inl, inr, str_eq, ◌==◌, ap, ◌⊎◌,
}
use mathlib.Core.Path.{subst}
use cnaas_nms.Prelude.Exec.{Result, ok, err}
use cnaas_nms.Schema.{Joblock}
use cnaas_nms.Jobs.Joblock.{
  not_b, find_by_name, find_by_job, delete_lock, drop_lock, current_lock, acquire_lock,
  release_lock,
}
use cnaas_nms.Jobs.Joblock.Unique.{
  IsUnique, find_by_job-find_by_name, new_lock, acquire_lock_cases, LockOp, acquire, release,
  lock_step, lock_run, lock_step-IsUnique, lock_run-IsUnique,
}

-- The call asks to release the lock of this name or this job.
abbrev pub Releases : String → ℕ → LockOp → Type 0
Releases name job_id (acquire now n j) = ⊥
Releases name job_id (release n j) = (n ≡ some name) ⊎ (j ≡ some job_id)

-- A row that a release by another name finds is a row of another job.
found_by_name_ne :
    (name other : String) (l m : Joblock) (locks : List Joblock)
    → IsUnique locks
    → find_by_name name locks ≡ some l
    → find_by_name other locks ≡ some m
    → m.job_id ≡ l.job_id
    → other ≡ name
found_by_name_ne name other l m locks u held found same =
    let one = find_by_job-find_by_name name locks l u held in
    let two = find_by_job-find_by_name other locks m u found in
    let p = first_sound (λ x. str_eq x.name name) locks l held in
    let q = first_sound (λ x. str_eq x.name other) locks m found in
    ground (
      arith,
      one,
      two,
      p,
      q,
      eq_iff l.name name,
      eq_iff m.name other,
      ap (λ k. find_by_job k locks) same,
    )

-- The row that a call finds, where the call does not ask for the lock of `l`, is not that of `l`.
current_lock_ne :
    (name : String) (l : Joblock) (n : Option String) (j : Option ℕ) (locks : List Joblock)
    (m : Joblock)
    → IsUnique locks
    → find_by_name name locks ≡ some l
    → ¬ Releases name l.job_id (release n j)
    → current_lock n j locks ≡ ok (some m)
    → m.job_id ≢ l.job_id
unfolding current_lock
current_lock_ne name l n (some (suc k)) locks m u held free found same =
    let p = first_sound (λ x. x.job_id == suc k) locks m (ground arith) in
    free (inr (ground (arith, p)))
current_lock_ne name l none _ locks m u held free found same = cc
current_lock_ne name l (some s) _ locks m u held free found same =
    free (inl (ap some (found_by_name_ne name s l m locks u held (ground arith) same)))

kept-drop_lock :
    (name : String) (l : Joblock) (locks : List Joblock) (r : Result (Option Joblock))
    → find_by_name name locks ≡ some l
    → ((m : Joblock) → r ≡ ok (some m) → m.job_id ≢ l.job_id)
    → find_by_name name (drop_lock locks r).1 ≡ some l
kept-drop_lock name l locks (err e) held other = held
kept-drop_lock name l locks (ok none) held other = held
kept-drop_lock name l locks (ok (some m)) held other =
    first-select (λ x. str_eq x.name name) (λ x. not_b (x.job_id == m.job_id)) locks l held
      (ground (arith, other m refl))

lock_step_keeps :
    (name : String) (l : Joblock) (op : LockOp) (locks : List Joblock)
    → IsUnique locks
    → find_by_name name locks ≡ some l
    → ¬ Releases name l.job_id op
    → find_by_name name (lock_step op locks) ≡ some l
unfolding lock_step release_lock
lock_step_keeps name l (acquire now n j) locks u held free =
    elim (acquire_lock_cases now n j locks) [
      | inl same ↦ subst (λ t. find_by_name name t ≡ some l) (sym same.0) held
      | inr new ↦
          subst (λ t. find_by_name name t ≡ some l) (sym new.2)
            (first-append (λ x. str_eq x.name name) locks (new_lock now n j ∷ []) l held)
    ]
lock_step_keeps name l (release n j) locks u held free =
    kept-drop_lock name l locks (current_lock n j locks) held
      (λ m e. current_lock_ne name l n j locks m u held free e)

lock_run_keeps :
    (name : String) (l : Joblock) (ops : List LockOp) (locks : List Joblock)
    → IsUnique locks
    → find_by_name name locks ≡ some l
    → All (λ op. ¬ Releases name l.job_id op) ops
    → find_by_name name (lock_run ops locks) ≡ some l
unfolding lock_run
lock_run_keeps name l [] locks u held free = held
lock_run_keeps name l (op ∷ ops) locks u held free =
    lock_run_keeps name l ops (lock_step op locks) (lock_step-IsUnique op locks u)
      (lock_step_keeps name l op locks u held free.0) free.1

pub acquire_lock_won :
    (now : ℕ) (name : String) (job_id : ℕ) (locks : List Joblock)
    → (acquire_lock now name job_id locks).0 ≡ ok true
    → find_by_name name (acquire_lock now name job_id locks).1 ≡ some (new_lock now name job_id)
acquire_lock_won now name job_id locks won = elim (acquire_lock_cases now name job_id locks) [
  | inl same ↦ absurd (same.1 won)
  | inr new ↦ rw new.2 (
      first-append_none (λ x. str_eq x.name name) locks (new_lock now name job_id ∷ []) new.0
      ∙ ground (arith, str_eq_refl name))
]

acquire_lock_taken :
    (now : ℕ) (name : String) (job_id : ℕ) (locks : List Joblock) (l : Joblock)
    → find_by_name name locks ≡ some l
    → (acquire_lock now name job_id locks).0 ≡ ok false
unfolding acquire_lock
acquire_lock_taken now name job_id locks l held = ground arith

-- Mutual exclusion, in a table with one row for each name and one for each job: after a job has
-- acquired a lock, and after any calls by anybody of which none asks to release that name or that
-- job, the job still holds the lock and no job can acquire it.
pub lock_excludes :
    (now : ℕ) (name : String) (job_id : ℕ) (locks : List Joblock) (ops : List LockOp)
    → IsUnique locks
    → (acquire_lock now name job_id locks).0 ≡ ok true
    → All (λ op. ¬ Releases name job_id op) ops
    → let locks' = lock_run ops (acquire_lock now name job_id locks).1 in
      (find_by_job job_id locks'
        ≡ some (record { job_id = job_id; name = name; start_time = now; abort = false }))
      × ((later other : ℕ) → (acquire_lock later name other locks').0 ≡ ok false)
unfolding lock_step
lock_excludes now name job_id locks ops u won free =
    let l = new_lock now name job_id in
    let locks₁ = (acquire_lock now name job_id locks).1 in
    let u₁ = lock_step-IsUnique (acquire now name job_id) locks u in
    let kept =
      lock_run_keeps name l ops locks₁ u₁ (acquire_lock_won now name job_id locks won) free in
    (
      find_by_job-find_by_name name (lock_run ops locks₁) l (lock_run-IsUnique ops locks₁ u₁) kept,
      λ later other. acquire_lock_taken later name other (lock_run ops locks₁) l kept,
    )

delete_lock_absent : (k : ℕ) (ls : List Joblock) → find_by_job k ls ≡ none → delete_lock k ls ≡ ls
delete_lock_absent k [] h = refl
delete_lock_absent k (l ∷ ls) h = ground (arith, delete_lock_absent k ls)

delete_lock_last :
    (l : Joblock) (ls : List Joblock)
    → find_by_job l.job_id ls ≡ none
    → delete_lock l.job_id (ls ++ l ∷ []) ≡ ls
delete_lock_last l [] h = ground arith
delete_lock_last l (m ∷ ls) h = ground (arith, delete_lock_last l ls)

-- Releasing by a job id that is not 0 what that job has just acquired succeeds and restores the
-- table, and the name can be acquired again by any job that holds no lock.
pub release-acquire_lock :
    (now : ℕ) (name : String) (k : ℕ) (locks : List Joblock)
    → (acquire_lock now name (suc k) locks).0 ≡ ok true
    → (release_lock none (some (suc k)) (acquire_lock now name (suc k) locks).1 ≡ (ok true, locks))
      × ((later other : ℕ)
          → find_by_job other locks ≡ none
          → (acquire_lock later name other locks).0 ≡ ok true)
unfolding release_lock
release-acquire_lock now name k locks won = elim (acquire_lock_cases now name (suc k) locks) [
  | inl same ↦ absurd (same.1 won)
  | inr new ↦ (
    rw new.2 (
        rw (first-append_none (λ x. x.job_id == suc k) locks (new_lock now name (suc k) ∷ []) new.1)
          (ground (arith, delete_lock_last (new_lock now name (suc k)) locks new.1))),
    λ later other free. unfold acquire_lock in ground arith,
  )
]

find_by_job-delete_lock : (k : ℕ) (ls : List Joblock) → find_by_job k (delete_lock k ls) ≡ none
find_by_job-delete_lock k [] = refl
find_by_job-delete_lock k (l ∷ ls) = ground (arith, find_by_job-delete_lock k ls)

-- After a release by a job's id, whether it succeeded or found nothing, the job holds no lock.
pub release_lock_frees :
    (k : ℕ) (locks : List Joblock)
    → find_by_job (suc k) (release_lock none (some (suc k)) locks).1 ≡ none
unfolding release_lock
release_lock_frees k locks = elim (Option-cases (find_by_job (suc k) locks)) [
  | inl gone ↦ rw gone gone
  | inr (l, held) ↦
      let same : l.job_id ≡ suc k =
        ground (arith, first_sound (λ x. x.job_id == suc k) locks l held) in
      rw (held, same) (find_by_job-delete_lock (suc k) locks)
]
