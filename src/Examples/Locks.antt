-- ===== src/Examples/Locks.antt =====
-- Locks, tried out.
use cnaas_nms.Prelude.{
  ℕ, String, Option, true, false, ◌≡◌, refl, List, [], ◌∷◌, none, some, arith, inl, inr, ◌⊎◌,
}
use cnaas_nms.Prelude.Exec.{ok}
use cnaas_nms.Jobs.Joblock.{acquire_lock, find_by_job}
use cnaas_nms.Jobs.Joblock.Unique.{
  IsUnique, LockOp, acquire, release, lock_run, lock_run-IsUnique, new_lock,
}
use cnaas_nms.Jobs.Joblock.Exclusion.{lock_excludes}

abbrev other_calls : List LockOp
other_calls = acquire 5 "devices" 8 ∷ acquire 6 "firmware" 8 ∷ release none (some 8) ∷ []

taken_lock : acquire_lock 1 "devices" 7 [] ≡ (ok true, new_lock 1 "devices" 7 ∷ [])
unfolding acquire_lock
taken_lock = refl

other_job :
    ¬ ((◌≡◌ {A = Option String} none (some "devices")) ⊎ (◌≡◌ {A = Option ℕ} (some 8) (some 7)))
other_job (inl h) = cc
other_job (inr h) = ground arith

lock_excludes_example :
    let locks' = lock_run other_calls (acquire_lock 1 "devices" 7 []).1 in
    (find_by_job 7 locks' ≡ some (new_lock 1 "devices" 7))
    × ((later other : ℕ) → (acquire_lock later "devices" other locks').0 ≡ ok false)
unfolding acquire_lock
lock_excludes_example =
    lock_excludes 1 "devices" 7 [] other_calls tt refl (λ x. x, (λ x. x, (other_job, tt)))

lock_run-IsUnique_example : IsUnique (lock_run other_calls (new_lock 1 "devices" 7 ∷ []))
lock_run-IsUnique_example =
    lock_run-IsUnique other_calls (new_lock 1 "devices" 7 ∷ []) (refl, refl, tt)
