-- ===== src/Jobs/Scheduler/Added.antt =====
-- What a job's row and its dispatch hold after the job was added.
use cnaas_nms.Prelude.{
  ℕ, zero, suc, ◌+◌, ◌≤◌, String, ◌≡◌, refl, Bool, true, false, Option, none, some, List, [], ◌∷◌,
  ◌++◌, arith, lookup, str_eq, lookup-erase, lookup-insert, Bool-cases, inl, inr, append, insert,
  erase,
}
use cnaas_nms.Prelude.Exec.{Result, ok}
use cnaas_nms.Schema.{Db, Job, JobStatus, ArgValue, Dispatch}
use cnaas_nms.Jobs.Scheduler.{
  add_onetime_job, new_job, comment_column, ticket_ref_column, prefix, cut_text, is_text,
  bad_ticket_ref, has_colon, last_part, job_function_name, popped,
}

-- The number of characters of a text.
abbrev pub count : String → ℕ
count String.[] = 0
count (String.◌∷◌ c s) = suc (count s)

count-prefix : (n : ℕ) (s : String) → count (prefix n s) ≤ n
unfolding prefix
count-prefix zero s = omega arith
count-prefix (suc n) String.[] = omega arith
count-prefix (suc n) (String.◌∷◌ c s) = omega (arith, count-prefix n s)

-- A row's text fits its column.
abbrev pub Fits : ℕ → Option String → Type 0
Fits n none = Unit
Fits n (some s) = count s ≤ n

cut_text-Fits : (n : ℕ) (c : Option ArgValue) → Fits n (cut_text n c)
cut_text-Fits n none = tt
cut_text-Fits n (some (ArgValue.text s)) = elim (Bool-cases (str_eq s "")) [
  | inl e ↦ rw e tt
  | inr e ↦ rw e (count-prefix n s)
]
cut_text-Fits n (some _) = tt

ticket_ref_column-Fits : (c t : Option ArgValue) → Fits 32 (ticket_ref_column c t)
unfolding ticket_ref_column
ticket_ref_column-Fits c t = elim (Bool-cases (is_text c)) [
  | inl e ↦ rw e (cut_text-Fits 32 t)
  | inr e ↦ rw e tt
]

-- A text without a colon.
abbrev pub IsName : String → Type 0
IsName String.[] = Unit
IsName (String.◌∷◌ c s) = (str_eq (String.◌∷◌ c String.[]) ":" ≡ false) × IsName s

has_colon-IsName : (s : String) → IsName s → has_colon s ≡ false
unfolding has_colon
has_colon-IsName String.[] h = refl
has_colon-IsName (String.◌∷◌ c s) h = rw (h.0, has_colon-IsName s h.1) refl

last_part-IsName : (s : String) → IsName s → last_part s ≡ s
unfolding last_part
last_part-IsName String.[] h = refl
last_part-IsName (String.◌∷◌ c s) h = rw (has_colon-IsName (String.◌∷◌ c s) h) refl

has_colon-append : (m s : String) → has_colon s ≡ true → has_colon (append m s) ≡ true
unfolding has_colon
has_colon-append String.[] s h = h
has_colon-append (String.◌∷◌ c m) s h = ground (arith, has_colon-append m s h)

last_part-append :
    (m s t : String) → has_colon s ≡ true → last_part s ≡ t → last_part (append m s) ≡ t
unfolding last_part has_colon
last_part-append String.[] s t h e = e
last_part-append (String.◌∷◌ c m) s t h e =
    ground (arith, has_colon-append m s h, last_part-append m s t h e)

-- The name after the colon, with a mark where the job is a dry run.
abbrev pub Named : String → List (String × ArgValue) → String → Type 0
Named func kwargs function_name =
    (path name : String)
    → func ≡ append path (append ":" name)
    → IsName name
    → (lookup "dry_run" kwargs ≡ some (ArgValue.flag true)
        → function_name ≡ append name " (dry_run)")
      × (lookup "dry_run" kwargs ≡ some (ArgValue.flag false) → function_name ≡ name)
      × (lookup "dry_run" kwargs ≡ none → function_name ≡ name)

job_function_name-Named :
    (func : String) (kwargs : List (String × ArgValue))
    → Named func kwargs (job_function_name func kwargs)
unfolding job_function_name
job_function_name-Named func kwargs path name e n =
    let last : last_part func ≡ name = rw e (
      last_part-append path (append ":" name) name (unfold has_colon in refl)
        (unfold last_part has_colon in last_part-IsName name n)) in
    (λ d. rw (d, last) refl, λ d. rw (d, last) refl, λ d. rw (d, last) refl)

-- The arguments that the row keeps and those that the scheduler is handed are the ones that were given,
-- without the comment and the ticket reference, and `scheduled_by` is that of the row.
abbrev pub Passed :
    List (String × ArgValue) → String → (start handed : List (String × ArgValue)) → Type 0
Passed kwargs scheduled_by start handed =
    (lookup "job_comment" start ≡ none)
    × (lookup "job_ticket_ref" start ≡ none)
    × ((key : String)
        → str_eq "job_comment" key ≡ false
        → str_eq "job_ticket_ref" key ≡ false
        → lookup key start ≡ lookup key kwargs)
    × (lookup "scheduled_by" handed ≡ some (ArgValue.text scheduled_by))
    × ((key : String) → str_eq "scheduled_by" key ≡ false → lookup key handed ≡ lookup key start)

popped-Passed :
    (kwargs : List (String × ArgValue)) (by : String)
    → Passed kwargs by (popped kwargs) (insert "scheduled_by" (ArgValue.text by) (popped kwargs))
popped-Passed kwargs by = (
  simp lookup-erase,
  simp lookup-erase,
  λ key c t.
      rw
        (
          lookup-erase "job_ticket_ref" key (erase "job_comment" kwargs),
          lookup-erase "job_comment" key kwargs,
          c,
          t,
        )
        refl,
  simp lookup-insert,
  λ key k. rw (lookup-insert "scheduled_by" key (ArgValue.text by) (popped kwargs), k) refl,
)

-- What is known of the time and of the user.
abbrev pub Timed : ℕ → Option ℕ → Option String → Job → Dispatch → Type 0
Timed now when by job dispatch =
    ((delay : ℕ)
      → when ≡ some (suc delay)
      → (job.scheduled_time ≡ now + suc delay) × (dispatch.when ≡ some (suc delay)))
    × (when ≡ none → (job.scheduled_time ≡ now) × (dispatch.when ≡ none))
    × ((user : String) → by ≡ some user → job.scheduled_by ≡ user)

-- The row and the dispatch of a job that was added with the next id.
abbrev pub Added :
    ℕ → String → Option ℕ → Option String → List (String × ArgValue) → Db → Result ℕ × Db → Type 0
Added now func when by kwargs db (r, db') =
    (r ≡ ok db.next_job_id)
    × (db'.next_job_id ≡ db.next_job_id + 1)
    × (job : Job) × (dispatch : Dispatch) × (db'.jobs ≡ db.jobs ++ job ∷ [])
    × (db'.dispatched ≡ dispatch ∷ db.dispatched)
    × (job.id ≡ db.next_job_id)
    × (job.status ≡ JobStatus.scheduled)
    × Fits 255 job.comment
    × Fits 32 job.ticket_ref
    × (dispatch.job_id ≡ job.id)
    × (dispatch.func ≡ func)
    × Named func kwargs job.function_name
    × Passed kwargs job.scheduled_by job.start_arguments dispatch.kwargs
    × Timed now when by job dispatch

-- Adding a job, with a ticket reference that is a text if it is stored, gives it the next id and a
-- SCHEDULED row at the end of the table, whose comment and ticket reference fit their columns and whose
-- function name is the part of the function's path after the colon, with a mark where `dry_run` is true.
-- The scheduler is handed the same id and the function's whole path. The row and the scheduler both get
-- the arguments without the comment and the reference, the scheduler with the row's user besides, and
-- the same time, where a delay other than 0 is given or none.
pub add_onetime_job_row :
    (use_mule : Bool) (now : ℕ) (func : String) (when : Option ℕ) (by : Option String)
    (kwargs : List (String × ArgValue)) (db : Db)
    → bad_ticket_ref (lookup "job_comment" kwargs) (lookup "job_ticket_ref" kwargs) ≡ false
    → Added now func when by kwargs db (add_onetime_job true use_mule now func when by kwargs db)
unfolding add_onetime_job
add_onetime_job_row use_mule now func when by kwargs db good = rw good (
  refl,
  refl,
  new_job db.next_job_id now func when by kwargs,
  _,
  refl,
  refl,
  refl,
  refl,
  unfold comment_column in cut_text-Fits 255 (lookup "job_comment" kwargs),
  ticket_ref_column-Fits (lookup "job_comment" kwargs) (lookup "job_ticket_ref" kwargs),
  refl,
  refl,
  job_function_name-Named func kwargs,
  popped-Passed kwargs _,
  (λ delay e. rw e (refl, refl), λ e. rw e (refl, refl), λ user e. rw e refl),
)

-- A ticket reference given without a comment, or with a comment that is no text, is not stored.
pub ticket_ref_dropped :
    (now id : ℕ) (func : String) (when : Option ℕ) (by : Option String)
    (kwargs : List (String × ArgValue))
    → is_text (lookup "job_comment" kwargs) ≡ false
    → (new_job id now func when by kwargs).ticket_ref ≡ none
unfolding new_job
ticket_ref_dropped now id func when by kwargs h = rw h
