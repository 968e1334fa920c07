-- ===== src/Init/Lifecycle/Moved.antt =====
-- What the discovery and the second step do to the states of the devices.
use cnaas_nms.Prelude.{
  ℕ, ◌+◌, ◌≡◌, refl, ap, ◌∙◌, String, Bool, true, Option, none, some, List, [], ◌∷◌, ◌==◌, arith,
  if_elim, select, update, map, Bool-cases, inl, inr, ◌⊎◌, str_eq,
}
use cnaas_nms.Prelude.Exec.{Result, ok, err, value_error, device_state_error, init_error}
use cnaas_nms.Schema.{Db, Device, DeviceState, state_eq}
use cnaas_nms.Links.{FactsAnswer, failed, missing, got, find_id}
use cnaas_nms.Links.SetFacts.{set_facts}
use cnaas_nms.Init.{InitEnv}
use cnaas_nms.Init.Discover.{
  DiscoverArgs, discover_device, discover_rows, after_contact, has_mac, set_mac, seen_at,
  discovered,
}
use cnaas_nms.Init.Second.{
  Step2Args, init_device_step2, second_step, after_login, make_managed, managed,
}
use cnaas_nms.Init.Lifecycle.{Transition, discover, finish, Move, stay, go, state_of, state_at}
use cnaas_nms.Init.Lifecycle.States.{state-update, set_id-Move}
use cnaas_nms.Init.Lifecycle.Phases.{kept-step2, kept-discover}

pub is_dhcp_boot :
    (s : DeviceState) → state_eq s DeviceState.dhcp_boot ≡ true → s ≡ DeviceState.dhcp_boot
is_dhcp_boot DeviceState.dhcp_boot h = refl
is_dhcp_boot _ h = cc

pub is_init : (s : DeviceState) → state_eq s DeviceState.init ≡ true → s ≡ DeviceState.init
is_init DeviceState.init h = refl
is_init _ h = cc

pub is_discovered :
    (s : DeviceState) → state_eq s DeviceState.discovered ≡ true → s ≡ DeviceState.discovered
is_discovered DeviceState.discovered h = refl
is_discovered _ h = cc

update_none :
    (p : Device → Bool) (f : Device → Device) (ds : List Device)
    → select p ds ≡ []
    → update p f ds ≡ ds
update_none p f [] h = refl
update_none p f (d ∷ ds) h = elim (Bool-cases (p d)) [
  | inl e ↦ ground (arith, h, e)
  | inr e ↦ rw (e, update_none p f ds (ground (arith, h, e))) refl
]

select-update :
    (p : Device → Bool) (f : Device → Device)
    → ((d : Device) → p (f d) ≡ p d)
    → (ds : List Device) → select p (update p f ds) ≡ map f (select p ds)
select-update p f k [] = refl
select-update p f k (d ∷ ds) = ground (arith, k d, select-update p f k ds)

-- Where one row passes the test, and its update makes a transition, so does each device or stays.
abbrev Goes : DeviceState → DeviceState → Option DeviceState → Option DeviceState → Type 0
Goes s t before after = (after ≡ before) ⊎ ((before ≡ some s) × (after ≡ some t))

update_one :
    (p : Device → Bool) (f : Device → Device) (s t : DeviceState) (j : ℕ)
    → ((d : Device) → ((f d).id ≡ d.id) × ((f d).state ≡ t))
    → (ds : List Device) (d : Device) → select p ds ≡ d ∷ []
    → d.state ≡ s
    → Goes s t (state_of (find_id j ds)) (state_of (find_id j (update p f ds)))
update_one p f s t j k [] d h is = cc
update_one p f s t j k (e ∷ ds) d h is = elim (Bool-cases (p e)) [
  | inl y ↦ elim (Bool-cases (e.id == j)) [
    | inl at ↦ inr (ground (arith, h, is, y, at), ground (arith, k e, y, at))
    | inr off ↦ inl (rw (update_none p f ds (ground (arith, h, y))) (ground (arith, k e, y, off)))
  ]
  | inr n ↦ elim (Bool-cases (e.id == j)) [
    | inl at ↦ inl (ground (arith, n, at))
    | inr off ↦ elim (update_one p f s t j k ds d (ground (arith, h, n)) is) [
      | inl same ↦ inl (ground (arith, n, off, same))
      | inr both ↦ inr (ground (arith, n, off, both), ground (arith, n, off, both))
    ]
  ]
]

update_one-Move :
    (s t : DeviceState) (before after : Option DeviceState)
    → Transition s t
    → Goes s t before after
    → Move before after
update_one-Move s t before after tr (inl same) = rw same stay
update_one-Move s t before after tr (inr both) = rw (both.0, both.1) (go tr)

module _ (j : ℕ) where
  -- The write of the address that the device was seen with.
  abbrev addressed : DiscoverArgs → Db → Db
  addressed args db = set_mac args.ztp_mac (seen_at args.address) db

  contact-Move :
      (env : InitEnv) (args : DiscoverArgs) (i : ℕ) (answer : FactsAnswer) (d : Device) (db : Db)
      → select (has_mac args.ztp_mac) db.devices ≡ d ∷ []
      → d.state ≡ DeviceState.dhcp_boot
      → Move (state_at j db) (state_at j (after_contact env args i answer (addressed args db)).1)
  contact-Move env args i failed d db one is =
      rw
        (
          kept-discover j env.sync args.ztp_mac args.dhcp_ip (i + 1) args.scheduled_by
              (addressed args db),
          state-update j (has_mac args.ztp_mac) (seen_at args.address) (λ x. (refl, refl))
              db.devices,
        )
        stay
  contact-Move env args i missing d db one is =
      rw
        (state-update j (has_mac args.ztp_mac) (seen_at args.address) (λ x. (refl, refl))
          db.devices)
        stay
  contact-Move env args i (got facts) d db one is =
      rw⁻¹
        (state-update j (has_mac args.ztp_mac) (seen_at args.address) (λ x. (refl, refl))
          db.devices)
        (update_one-Move DeviceState.dhcp_boot DeviceState.discovered _ _ discover (
          update_one (has_mac args.ztp_mac) (discovered env.sync.now facts) DeviceState.dhcp_boot
            DeviceState.discovered j (λ x. (refl, refl)) (addressed args db).devices
            (seen_at args.address d)
            (select-update (has_mac args.ztp_mac) (seen_at args.address) (λ x. refl) db.devices
              ∙ ap (map (seen_at args.address)) one)
            is))

  rows-Move :
      (env : InitEnv) (args : DiscoverArgs) (i : ℕ) (ds : List Device) (db : Db)
      → select (has_mac args.ztp_mac) db.devices ≡ ds
      → Move (state_at j db) (state_at j (discover_rows env args i ds db).1)
  rows-Move env args i [] db h = stay
  rows-Move env args i (d ∷ e ∷ ds) db h = stay
  rows-Move env args i (d ∷ []) db h =
      if_elim (λ (r : Result (Option ℕ) × Db). Move (state_at j db) (state_at j r.1))
        (state_eq d.state DeviceState.dhcp_boot)
        (after_contact env args i (env.get_facts d.hostname) (addressed args db))
        (err value_error, db)
        (λ e. contact-Move env args i (env.get_facts d.hostname) d db h (is_dhcp_boot d.state e))
        (λ e. stay)

  pub discover_device-Move :
      (env : InitEnv) (args : DiscoverArgs) (i : ℕ) (db : Db)
      → Move (state_at j db) (state_at j (discover_device env args i db).1)
  unfolding discover_device
  discover_device-Move env args i db = rows-Move env args i _ db refl

  login-Move :
      (env : InitEnv) (args : Step2Args) (i : ℕ) (host : String) (answer : FactsAnswer) (db : Db)
      → state_at args.device_id db ≡ some DeviceState.init
      → Move (state_at j db) (state_at j (after_login env args i host answer db).1)
  unfolding set_facts
  login-Move env args i host failed db h =
      rw (kept-step2 j env.sync args.device_id i args.scheduled_by db) stay
  login-Move env args i host missing db h = stay
  login-Move env args i host (got facts) db h =
      if_elim (λ (r : Result (Option ℕ) × Db). Move (state_at j db) (state_at j r.1))
        (str_eq host facts.hostname) (ok none, make_managed env args host facts db)
        (err init_error, db)
        (λ e.
          set_id-Move args.device_id j (managed env.sync.now facts) DeviceState.init
            DeviceState.managed db (λ d. (refl, refl)) finish h)
        (λ e. stay)

  step-Move :
      (env : InitEnv) (args : Step2Args) (i : ℕ) (o : Option Device) (db : Db)
      → find_id args.device_id db.devices ≡ o
      → Move (state_at j db) (state_at j (second_step env args i o db).1)
  step-Move env args i none db h = stay
  step-Move env args i (some d) db h =
      if_elim (λ (r : Result (Option ℕ) × Db). Move (state_at j db) (state_at j r.1))
        (state_eq d.state DeviceState.init)
        (after_login env args i d.hostname (env.get_facts d.hostname) db)
        (err device_state_error, db)
        (λ e.
          login-Move env args i d.hostname (env.get_facts d.hostname) db
            (ap state_of h ∙ ap some (is_init d.state e)))
        (λ e. stay)

  pub init_device_step2-Move :
      (env : InitEnv) (args : Step2Args) (i : ℕ) (db : Db)
      → Move (state_at j db) (state_at j (init_device_step2 env args i db).1)
  unfolding init_device_step2
  init_device_step2-Move env args i db = step-Move env args i _ db refl
