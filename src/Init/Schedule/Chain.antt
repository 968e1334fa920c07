-- ===== src/Init/Schedule/Chain.antt =====
-- Jobs that schedule themselves again: what runs next is what the scheduler was handed. Between two
-- runs other jobs write the database.
use cnaas_nms.Prelude.{
  ℕ, zero, suc, ◌+◌, ◌≤◌, ◌≡◌, ◌≢◌, refl, Option, none, some, arith, String, first, lookup, ◌==◌,
  ◌&&◌, str_eq,
}
use cnaas_nms.Prelude.Exec.{Exec, Result, ok, err}
use cnaas_nms.Schema.{Db, ArgValue, Dispatch}

abbrev pub one_more : Option ℕ → Option ℕ
one_more none = none
one_more (some n) = some (suc n)

abbrev pub number_of : Option ArgValue → Option ℕ
number_of (some (ArgValue.number n)) = some n
number_of _ = none

abbrev pub iteration_of : Option Dispatch → Option ℕ
iteration_of none = none
iteration_of (some d) = number_of (lookup "iteration" d.kwargs)

-- The iteration with which the scheduler was handed the function under that job id.
abbrev pub handed : String → ℕ → Db → Option ℕ
handed path id db = iteration_of (first (λ d. d.job_id == id && str_eq d.func path) db.dispatched)

-- A run that raises, or that returns no id of a next job, is the last one.
abbrev pub runs_after : Result (Option ℕ) → Option ℕ → Option ℕ
runs_after (err e) rest = some 1
runs_after (ok none) rest = some 1
runs_after (ok (some id)) rest = one_more rest

-- The iteration of the next run, where there is one.
abbrev pub next_iteration : String → Result (Option ℕ) × Db → Option ℕ
next_iteration path (ok (some id), db) = handed path id db
next_iteration path _ = none

-- How often the job runs from an iteration on; none, where the fuel does not suffice, or where the job
-- that it names is not itself with an iteration.
abbrev pub chain :
    String
    → (ℕ → Exec Db (Option ℕ))
    → (between : ℕ → Db → Db) → (fuel : ℕ) → (iteration : Option ℕ) → Db
    → Option ℕ
chain path job between zero i db = none
chain path job between (suc fuel) none db = none
chain path job between (suc fuel) (some i) db =
    let out = job i (between i db) in
    let rest = chain path job between fuel (next_iteration path out) out.1 in runs_after out.0 rest

abbrev pub Ends : ℕ → Option ℕ → Type 0
Ends bound o = (n : ℕ) × (o ≡ some n) × (n ≤ bound)

Ends-one_more : (bound : ℕ) (o : Option ℕ) → Ends bound o → Ends (suc bound) (one_more o)
Ends-one_more bound none (n, h, l) = cc
Ends-one_more bound (some m) (n, h, l) = (suc m, refl, ground (arith, h, l))

-- What a job leaves that schedules itself with the next iteration, if at all.
abbrev pub Again : String → ℕ → Result (Option ℕ) × Db → Type 0
Again path i out = (id : ℕ) → out.0 ≡ ok (some id) → handed path id out.1 ≡ some (suc i)

Ends-after :
    (path : String) (bound i : ℕ) (rest : Option ℕ → Db → Option ℕ) (out : Result (Option ℕ) × Db)
    → Again path i out
    → ((id : ℕ) → out.0 ≡ ok (some id) → Ends bound (rest (some (suc i)) out.1))
    → Ends (suc bound) (runs_after out.0 (rest (next_iteration path out) out.1))
Ends-after path bound i rest (err e, db) again more = (1, refl, omega arith)
Ends-after path bound i rest (ok none, db) again more = (1, refl, omega arith)
Ends-after path bound i rest (ok (some id), db) again more =
    rw (again id refl) (Ends-one_more bound (rest (some (suc i)) db) (more id refl))

module _ (path : String) (job : ℕ → Exec Db (Option ℕ)) (between : ℕ → Db → Db) (last : ℕ)
    (again : (i : ℕ) (db : Db) → Again path i (job i db))
    (stops : (i : ℕ) (db : Db) → last ≤ i → (id : ℕ) → (job i db).0 ≢ ok (some id)) where
  -- A job that schedules nothing from the iteration `last` on runs at most so many times.
  pub chain-Ends :
      (fuel i : ℕ) (db : Db)
      → last ≤ fuel + i
      → Ends (suc fuel) (chain path job between (suc fuel) (some i) db)
  chain-Ends zero i db h =
      Ends-after path 0 i (chain path job between 0) (job i (between i db)) (again i (between i db))
        (λ id e. absurd (stops i (between i db) (omega (arith, h)) id e))
  chain-Ends (suc fuel) i db h =
      Ends-after path (suc fuel) i (chain path job between (suc fuel)) (job i (between i db))
        (again i (between i db))
        (λ id e. chain-Ends fuel (suc i) (job i (between i db)).1 (omega (arith, h)))
