-- ===== src/Init/Lifecycle/Prepared.antt =====
-- The first session of `init_access_device_step1` and the checks of `init_fabric_device_step1` keep the
-- states of all devices, and they return for a device in the state DISCOVERED only.
use cnaas_nms.Prelude.{
  ℕ, ◌≡◌, refl, ap, ◌∙◌, String, Bool, Option, none, some, List, [], ◌∷◌, arith, if◌then◌else◌,
}
use cnaas_nms.Prelude.Exec.{
  Exec, Error, Result, ok, err, raise, query, handled, value_error, device_state_error,
  device_sync_error, connection_check_error, unbound_local,
}
use cnaas_nms.Prelude.Same.{
  Same-bind, Same-pure, Same-raise, Same-if, Same-modify, Same-query, Same-handle, >>=-returned,
}
use cnaas_nms.Schema.{Db, Device, DeviceState, IpAddress}
use cnaas_nms.Topology.{LinkDict}
use cnaas_nms.Links.{find_id}
use cnaas_nms.Init.{InitEnv, state_in}
use cnaas_nms.Init.Checks.{pre_init_checks}
use cnaas_nms.Init.Access.{
  AccessArgs, Found, mlag_pair, half_pair, init_mlag_peer_only, peer_only, wrong_state,
  access_device, find_pair, find_single, find_links, allow_unsynced, verify_uplinks, access_checks,
  access_rows, access_prepare, update_peer,
}
use cnaas_nms.Init.Lifecycle.{state_of, state_at}
use cnaas_nms.Init.Lifecycle.Kept.{Kept, Kept-update_linknets, Kept-worker}
use cnaas_nms.Init.Lifecycle.Phases.{
  Kept-check, Kept-session, Kept-reserve, Kept-rename, Kept-peer, Kept-clear,
}
use cnaas_nms.Init.Lifecycle.Moved.{is_discovered}

-- The device that is checked is in the database, in the accepted state.
pub checked-discovered :
    (reachable : String → Bool) (id : ℕ) (db : Db) (dev : Device)
    → pre_init_checks reachable id (DeviceState.discovered ∷ []) db ≡ ok dev
    → (find_id id db.devices ≡ some dev) × (state_at id db ≡ some DeviceState.discovered)
unfolding pre_init_checks
checked-discovered reachable id db dev h = go _ refl h
  where
    go :
        (o : Option Device)
        → find_id id db.devices ≡ o
        → (elim o as (λ x. Result Device) [
          | none ↦ err value_error
          | some d ↦
              if state_in d.state (DeviceState.discovered ∷ [])
              then (if reachable d.hostname then ok d else err connection_check_error)
              else err device_state_error
        ])
          ≡ ok dev
        → (find_id id db.devices ≡ some dev) × (state_at id db ≡ some DeviceState.discovered)
    go none e k = cc
    go (some d) e k =
        (ground (arith, e, k), ap state_of e ∙ ap some (is_discovered d.state (ground (arith, k))))

module _ (id : ℕ) where
  Kept-peer_only :
      (env : InitEnv) (args : AccessArgs) (pair : Option (ℕ × String))
      → Kept id (peer_only env args pair)
  unfolding init_mlag_peer_only
  Kept-peer_only env args none = Same-raise _ _
  Kept-peer_only env args (some (peer, name)) =
      Same-bind _ _ _
        (Same-bind _ _ _ (Same-query _ _) (λ dev. Same-bind _ _ _ (Same-query _ _) (λ p.
          Same-bind _ _ _ (Same-query _ _)
            (λ hosts. Kept-peer id env.sync peer name hosts args.scheduled_by))))
        (λ n. Same-raise _ _)

  Kept-wrong_state :
      (env : InitEnv) (args : AccessArgs) (e : Error) → Kept id (wrong_state env args e)
  Kept-wrong_state env args device_state_error = Kept-peer_only env args (mlag_pair args)
  Kept-wrong_state env args _ = Same-raise _ _

  Kept-device : (env : InitEnv) (args : AccessArgs) → Kept id (access_device env args)
  unfolding access_device
  Kept-device env args = Same-handle _ _ _ (Same-query _ _) (Kept-wrong_state env args)

  Kept-pair :
      (env : InitEnv) (dev : Device) (ls : List LinkDict) (peer : ℕ)
      → Kept id (find_pair env dev ls peer)
  unfolding find_pair
  Kept-pair env dev ls peer = Same-bind _ _ _ (Same-query _ _) (λ p.
      Same-bind _ _ _ (Kept-update_linknets id env.links _ _) (λ a.
        Same-bind _ _ _ (Same-query _ _) (λ b.
          Same-bind _ _ _ (Kept-update_linknets id env.links _ _) (λ c.
            Same-bind _ _ _ (Kept-worker id env.links _ _ _) (λ d.
              Same-bind _ _ _ (Kept-worker id env.links _ _ _) (λ e.
                Same-bind _ _ _ (Same-query _ _) (λ f.
                  Same-bind _ _ _ (Same-query _ _)
                    (λ g. Same-bind _ _ _ (Same-query _ _) (λ h. Same-pure _ _)))))))))

  Kept-single :
      (env : InitEnv) (dev : Device) (ls : List LinkDict) → Kept id (find_single env dev ls)
  unfolding find_single
  Kept-single env dev ls = Same-bind _ _ _ (Kept-update_linknets id env.links _ _) (λ a.
      Same-bind _ _ _ (Kept-worker id env.links _ _ _)
        (λ d. Same-bind _ _ _ (Same-query _ _) (λ f. Same-pure _ _)))

  Kept-links :
      (env : InitEnv) (args : AccessArgs) (dev : Device) (ls : List LinkDict)
      (pair : Option (ℕ × String)) (uplinks : List String)
      → Kept id (find_links env args dev ls pair uplinks)
  Kept-links env args dev ls (some (peer, name)) uplinks = Kept-pair env dev ls peer
  Kept-links env args dev ls none (u ∷ us) = Same-pure _ _
  Kept-links env args dev ls none [] =
      Same-if _ (half_pair args) (raise value_error) (find_single env dev ls) (λ e. Same-raise _ _)
        (λ e. Kept-single env dev ls)

  Kept-allow : (e : Error) → Kept id (allow_unsynced e)
  Kept-allow device_sync_error = Same-pure _ _
  Kept-allow _ = Same-raise _ _

  Kept-verify :
      (env : InitEnv) (dev : Device) (found : Found) → Kept id (verify_uplinks env dev found)
  unfolding verify_uplinks
  Kept-verify env dev found =
      Same-bind _ _ _ (Same-query _ _)
        (λ ns. Kept-session id _ (Kept-check id env.sync found.uplink_hostnames))

  Kept-checks :
      (env : InitEnv) (dev : Device) (found : Found) (us : List String)
      → Kept id (access_checks env dev found us)
  Kept-checks env dev found [] = Same-handle _ _ _ (Kept-verify env dev found) Kept-allow
  Kept-checks env dev found (u ∷ us) = Same-pure _ _

  Kept-update_peer : (env : InitEnv) (peer : Option Device) → Kept id (update_peer env peer)
  Kept-update_peer env none = Same-pure _ _
  Kept-update_peer env (some peer) = Kept-update_linknets id env.links _ _

  Kept-rows :
      (env : InitEnv) (args : AccessArgs) (dev : Device) (found : Found)
      → Kept id (access_rows env args dev found)
  unfolding access_rows
  Kept-rows env args dev found = Same-bind _ _ _ (Kept-update_linknets id env.links _ _) (λ a.
      Same-bind _ _ _ (Kept-update_peer env found.mlag_peer) (λ b.
        Same-bind _ _ _ (Same-query _ _) (λ dom.
          Same-bind _ _ _ (Kept-clear id env.sync.now args.device_id) (λ c.
            Same-bind _ _ _ (Kept-session id _ (Kept-reserve id env args.device_id dom)) (λ ips.
              Same-bind _ _ _ (Same-query _ _) (λ d.
                Same-bind _ _ _ (Kept-rename id args.device_id args.new_hostname)
                  (λ e. Same-bind _ _ _ (Same-modify _ _ (λ db. refl)) (λ f. Same-pure _ _))))))))

  pub Kept-prepare : (env : InitEnv) (args : AccessArgs) → Kept id (access_prepare env args)
  unfolding access_prepare
  Kept-prepare env args = Same-bind _ _ _ (Kept-device env args) (λ dev.
      Same-bind _ _ _ (Same-query _ _) (λ ls.
        Same-bind _ _ _ (Kept-links env args dev ls (mlag_pair args) args.uplink_hostnames_arg)
          (λ found.
            Same-bind _ _ _ (Kept-checks env dev found args.uplink_hostnames_arg)
              (λ u. Same-bind _ _ _ (Kept-rows env args dev found) (λ ips. Same-pure _ _)))))

-- What `handle` returns, its body has returned, where its handler never returns.
handled-returned :
    {A : Type 0} (r : Result A) (h : Error → Exec Db A) (db : Db) (a : A)
    → ((e : Error) (db : Db) → (h e db).0 ≡ ok a → ⊥)
    → (handled r h db).0 ≡ ok a
    → r ≡ ok a
handled-returned (ok b) h db a never e = e
handled-returned (err x) h db a never e = absurd (never x db e)

peer_only_raises :
    (env : InitEnv) (args : AccessArgs) (pair : Option (ℕ × String)) (db : Db) (dev : Device)
    → (peer_only env args pair db).0 ≡ ok dev
    → ⊥
unfolding raise
peer_only_raises env args none db dev h = cc
peer_only_raises env args (some (peer, name)) db dev h =
    let (n, is, k, more) =
      >>=-returned (init_mlag_peer_only env args.device_id peer name args.scheduled_by)
        (λ _. raise unbound_local) db dev h in
    cc

wrong_state_raises :
    (env : InitEnv) (args : AccessArgs) (e : Error) (db : Db) (dev : Device)
    → (wrong_state env args e db).0 ≡ ok dev
    → ⊥
unfolding raise
wrong_state_raises env args device_state_error db dev h =
    peer_only_raises env args (mlag_pair args) db dev h
wrong_state_raises env args _ db dev h = cc

device-discovered :
    (env : InitEnv) (args : AccessArgs) (db : Db) (dev : Device)
    → (access_device env args db).0 ≡ ok dev
    → state_at args.device_id db ≡ some DeviceState.discovered
unfolding access_device query
device-discovered env args db dev h =
    (checked-discovered env.reachable args.device_id db dev (
      handled-returned _ (wrong_state env args) db dev
        (λ e db'. wrong_state_raises env args e db' dev) h)).1

-- Where the first session returns, the device was in the state DISCOVERED.
pub prepared-discovered :
    (env : InitEnv) (args : AccessArgs) (db : Db)
    (r : Device × Found × (IpAddress × Option IpAddress))
    → (access_prepare env args db).0 ≡ ok r
    → state_at args.device_id db ≡ some DeviceState.discovered
unfolding access_prepare
prepared-discovered env args db r h =
    let (dev, is, k, more) = >>=-returned (access_device env args) _ db r h in
    device-discovered env args db dev is
