-- ===== src/Prelude/Exec.antt =====
-- Code that reads and writes a state and may raise. What was written before a raise stays written
-- unless a session rolls it back, so the state comes back beside the error too.
use mathlib.Core.Path.{◌≡◌, subst}
use mathlib.Core.Bool.{Bool, true, false}
use mathlib.Core.Option.{Option, none, some}

-- The exceptions that the modelled code raises, by class. Their messages are left out.
pub data Error : Type 0 where
  exception value_error type_error key_error attribute_error unbound_local : Error
  job_not_found invalid_job joblock_error timeout_error : Error
  no_result_found multiple_results_found integrity_error : Error
  device_error device_state_error device_sync_error : Error
  connection_check_error init_verification_error init_error neighbor_error interface_error : Error
  settings_error vlan_conflict_error task_error : Error

pub data Result {ℓ} (A : Type ℓ) : Type ℓ where
  ok : A → Result A
  err : Error → Result A

pub ok_inj {ℓ} : {A : Type ℓ} {a b : A} → ok a ≡ ok b → a ≡ b
ok_inj h = cc

-- What holds of one value that was returned holds of the other.
pub ok_elim {ℓ κ} : {A : Type ℓ} (P : A → Type κ) {a b : A} → P a → ok a ≡ ok b → P b
ok_elim P {a} {b} p h = subst P (ok_inj h) p

abbrev pub Exec {ℓ} : Type ℓ → Type ℓ → Type ℓ
Exec S A = S → Result A × S

module _ {ℓ} {S A : Type ℓ} where
  unfoldable pub pure : A → Exec S A
  pure a s = (ok a, s)

  unfoldable pub raise : Error → Exec S A
  raise e s = (err e, s)

  unfoldable pub lift : Result A → Exec S A
  lift r s = (r, s)

  unfoldable pub gets : (S → A) → Exec S A
  gets f s = (ok (f s), s)

  -- A question to the state that may fail.
  unfoldable pub query : (S → Result A) → Exec S A
  query f s = (f s, s)

  abbrev pub handled : Result A → (Error → Exec S A) → Exec S A
  handled (ok a) h s = (ok a, s)
  handled (err e) h s = h e s

  -- `try: m except: h`, from the state in which `m` raised
  abbrev pub handle : Exec S A → (Error → Exec S A) → Exec S A
  handle m h s = handled (m s).0 h (m s).1

unfoldable pub modify : {S : Type 0} → (S → S) → Exec S Unit
modify f s = (ok tt, f s)

module _ {ℓ} {S A B : Type ℓ} where
  abbrev pub continue : Result A → (A → Exec S B) → Exec S B
  continue (ok a) f s = f a s
  continue (err e) f s = (err e, s)

  infixl 10 ◌>>=◌ ◌>>◌
  -- Opening this opens the actions above too.
  unfoldable pub ◌>>=◌ : Exec S A → (A → Exec S B) → Exec S B
  unfolding pure raise lift gets query modify
  ◌>>=◌ m f s = let (r, s') = m s in continue r f s'

  abbrev pub ◌>>◌ : Exec S A → Exec S B → Exec S B
  m >> n = m >>= λ _. n

-- A test that raises.
abbrev pub guard : {S : Type 0} → Bool → Error → Exec S Unit
guard true e = pure tt
guard false e = raise e

-- An `Option` that must be there.
abbrev pub require {ℓ} : {S A : Type ℓ} → Error → Option A → Exec S A
require e none = raise e
require e (some a) = pure a
