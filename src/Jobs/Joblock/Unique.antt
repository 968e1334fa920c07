-- ===== src/Jobs/Joblock/Unique.antt =====
-- The unique columns of the table of locks.
use cnaas_nms.Prelude.{
  ℕ, String, ◌≡◌, ◌≢◌, refl, sym, true, false, Option, none, some, List, [], ◌∷◌, ◌++◌, arith,
  eq_iff, ==_iff, first-select-none, first-append_none, Bool-cases, inl, inr, str_eq, ◌==◌, ◌⊎◌,
}
use mathlib.Core.Path.{subst}
use cnaas_nms.Prelude.Exec.{Result, ok, err}
use cnaas_nms.Schema.{Joblock}
use cnaas_nms.Jobs.Joblock.{
  not_b, find_by_name, find_by_job, delete_lock, drop_lock, current_lock, acquire_lock,
  release_lock,
}

-- One row for each name, and one for each job: the unique columns of the table.
abbrev pub IsUnique : List Joblock → Type 0
IsUnique [] = Unit
IsUnique (l ∷ ls) = (find_by_name l.name ls ≡ none) × (find_by_job l.job_id ls ≡ none) × IsUnique ls

-- The lock found by a name is the one found by its job.
pub find_by_job-find_by_name :
    (name : String) (ls : List Joblock) (l : Joblock)
    → IsUnique ls
    → find_by_name name ls ≡ some l
    → find_by_job l.job_id ls ≡ some l
find_by_job-find_by_name name [] l u h = cc
find_by_job-find_by_name name (m ∷ ls) l u h =
    ground (arith, find_by_job-find_by_name name ls l u.2, ==_iff m.job_id l.job_id)

IsUnique-delete_lock : (k : ℕ) (ls : List Joblock) → IsUnique ls → IsUnique (delete_lock k ls)
IsUnique-delete_lock k [] u = tt
IsUnique-delete_lock k (l ∷ ls) u =
    let by_name =
      first-select-none (λ m. str_eq m.name l.name) (λ m. not_b (m.job_id == k)) ls u.0 in
    let by_job =
      first-select-none (λ m. m.job_id == l.job_id) (λ m. not_b (m.job_id == k)) ls u.1 in
    elim (Bool-cases (l.job_id == k)) [
      | inl e ↦ rw e (IsUnique-delete_lock k ls u.2)
      | inr e ↦ rw e (by_name, by_job, IsUnique-delete_lock k ls u.2)
    ]

IsUnique-append :
    (l : Joblock) (ls : List Joblock)
    → IsUnique ls
    → find_by_name l.name ls ≡ none
    → find_by_job l.job_id ls ≡ none
    → IsUnique (ls ++ l ∷ [])
IsUnique-append l [] u n j = (refl, refl, tt)
IsUnique-append l (m ∷ ls) u n j = (
  ground (
    arith,
    first-append_none (λ x. str_eq x.name m.name) ls (l ∷ []) u.0,
    eq_iff m.name l.name,
    eq_iff l.name m.name,
  ),
  ground (arith, first-append_none (λ x. x.job_id == m.job_id) ls (l ∷ []) u.1),
  IsUnique-append l ls u.2 (ground arith) (ground arith),
)

-- A call on the table of locks, with the arguments that its caller gives.
pub data LockOp : Type 0 where
  acquire : (now : ℕ) (name : String) (job_id : ℕ) → LockOp
  release : (name : Option String) (job_id : Option ℕ) → LockOp

unfoldable pub lock_step : LockOp → List Joblock → List Joblock
lock_step (acquire now name job_id) locks = (acquire_lock now name job_id locks).1
lock_step (release name job_id) locks = (release_lock name job_id locks).1

unfoldable pub lock_run : List LockOp → List Joblock → List Joblock
unfolding lock_step
lock_run [] locks = locks
lock_run (op ∷ ops) locks = lock_run ops (lock_step op locks)

drop_lock-IsUnique :
    (locks : List Joblock) (r : Result (Option Joblock))
    → IsUnique locks
    → IsUnique (drop_lock locks r).1
drop_lock-IsUnique locks (err e) u = u
drop_lock-IsUnique locks (ok none) u = u
drop_lock-IsUnique locks (ok (some l)) u = IsUnique-delete_lock l.job_id locks u

abbrev pub new_lock : ℕ → String → ℕ → Joblock
new_lock now name job_id = record { job_id = job_id; name = name; start_time = now; abort = false }

-- An acquisition leaves the table as it is, or appends a row where neither name nor job has one.
pub acquire_lock_cases :
    (now : ℕ) (name : String) (job_id : ℕ) (locks : List Joblock)
    → ((acquire_lock now name job_id locks).1 ≡ locks)
        × ((acquire_lock now name job_id locks).0 ≢ ok true)
      ⊎ (find_by_name name locks ≡ none)
        × (find_by_job job_id locks ≡ none)
        × ((acquire_lock now name job_id locks).1 ≡ locks ++ new_lock now name job_id ∷ [])
unfolding acquire_lock
acquire_lock_cases now name job_id locks = ground arith

-- Every call keeps one row for each name and one for each job.
pub lock_step-IsUnique :
    (op : LockOp) (locks : List Joblock) → IsUnique locks → IsUnique (lock_step op locks)
unfolding lock_step release_lock
lock_step-IsUnique (acquire now name job_id) locks u =
    elim (acquire_lock_cases now name job_id locks) [
      | inl same ↦ subst IsUnique (sym same.0) u
      | inr new ↦
          subst IsUnique (sym new.2)
            (IsUnique-append (new_lock now name job_id) locks u new.0 new.1)
    ]
lock_step-IsUnique (release name job_id) locks u =
    drop_lock-IsUnique locks (current_lock name job_id locks) u

-- After any sequence of calls to acquire and release locks, a table that had one row for each name and
-- one for each job still has.
pub lock_run-IsUnique :
    (ops : List LockOp) (locks : List Joblock) → IsUnique locks → IsUnique (lock_run ops locks)
unfolding lock_run
lock_run-IsUnique [] locks u = u
lock_run-IsUnique (op ∷ ops) locks u =
    lock_run-IsUnique ops (lock_step op locks) (lock_step-IsUnique op locks u)
