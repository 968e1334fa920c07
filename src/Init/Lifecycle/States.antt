-- ===== src/Init/Lifecycle/States.antt =====
-- Writes that keep the states of the devices, and writes that change one.
use cnaas_nms.Prelude.{
  ℕ, ◌≡◌, refl, ap, Bool, false, some, List, [], ◌∷◌, ◌==◌, arith, update, Bool-cases, inl, inr,
  ==_iff,
}
use cnaas_nms.Schema.{Db, Device, DeviceState}
use cnaas_nms.Links.{find_id}
use cnaas_nms.Init.{set_id}
use cnaas_nms.Init.Lifecycle.{Transition, Move, stay, go, state_of, state_at}

-- The columns of the id and of the state are kept.
abbrev pub KeepsState : (Device → Device) → Type 0
KeepsState f = (d : Device) → ((f d).id ≡ d.id) × ((f d).state ≡ d.state)

pub state-update :
    (id : ℕ) (q : Device → Bool) (f : Device → Device)
    → KeepsState f
    → (ds : List Device) → state_of (find_id id (update q f ds)) ≡ state_of (find_id id ds)
state-update id q f k [] = refl
state-update id q f k (d ∷ ds) = ground (arith, k d, state-update id q f k ds)

-- The device that is named changes its state, and no other does.
pub state-update_id :
    (id : ℕ) (f : Device → Device) (t : DeviceState)
    → ((d : Device) → ((f d).id ≡ d.id) × ((f d).state ≡ t))
    → (ds : List Device) (s : DeviceState) → state_of (find_id id ds) ≡ some s
    → state_of (find_id id (update (λ d. d.id == id) f ds)) ≡ some t
state-update_id id f t k [] s h = cc
state-update_id id f t k (d ∷ ds) s h = ground (arith, k d, state-update_id id f t k ds s)

pub state-update_other :
    (id j : ℕ) (f : Device → Device)
    → ((d : Device) → (f d).id ≡ d.id)
    → (j == id) ≡ false
    → (ds : List Device) → find_id j (update (λ d. d.id == id) f ds) ≡ find_id j ds
state-update_other id j f k ne [] = refl
state-update_other id j f k ne (d ∷ ds) = ground (arith, k d, state-update_other id j f k ne ds)

pub set_id-Move :
    (id j : ℕ) (f : Device → Device) (s t : DeviceState) (db : Db)
    → ((d : Device) → ((f d).id ≡ d.id) × ((f d).state ≡ t))
    → Transition s t
    → state_at id db ≡ some s
    → Move (state_at j db) (state_at j (set_id id f db))
set_id-Move id j f s t db k tr h = elim (Bool-cases (j == id)) [
  | inl e ↦ rw ((==_iff j id).0 e, h, state-update_id id f t k db.devices s h) (go tr)
  | inr e ↦ rw (ap state_of (state-update_other id j f (λ d. (k d).0) e db.devices)) stay
]
