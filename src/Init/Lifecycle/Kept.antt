-- ===== src/Init/Lifecycle/Kept.antt =====
-- The phases of an initialisation that keep the states of all devices.
use cnaas_nms.Prelude.{
  ℕ, suc, ◌≡◌, refl, ◌∙◌, String, Bool, true, false, Option, none, some, List, [], ◌∷◌, if_elim,
  if◌then◌else◌,
}
use cnaas_nms.Prelude.Exec.{Exec, Result, ok, err, raise, value_error}
use cnaas_nms.Prelude.Same.{Same, Same-bind, Same-pure}
use cnaas_nms.Schema.{Db, Device, DeviceType, Linknet, IpNetwork}
use cnaas_nms.Sync.Tasks.{set_device, find_device}
use cnaas_nms.Topology.{LinkDict, create_linknet, finish_linknet, refuse_linknet, link_created}
use cnaas_nms.Links.{LinkEnv}
use cnaas_nms.Links.Interfaces.{update_interfacedb_worker, write_plan, Plan}
use cnaas_nms.Links.Linknets.{
  UpdateArgs, Neighbor, update_linknets, update_links, update_link, link_between, typed_link,
  checked_link, replace_link, make_link, new_link, keep_link, from_device, delete_linknet,
  add_linknet, same_link, link_dict,
}
use cnaas_nms.Init.Lifecycle.{state_at}
use cnaas_nms.Init.Lifecycle.States.{state-update}

module _ (id : ℕ) where
  -- The state of the device is the same after the action.
  abbrev pub Kept : {A : Type 0} → Exec Db A → Type 0
  Kept m = Same (state_at id) m

  desync :
      (h : String) (db : Db)
      → state_at id (set_device h (λ d. record d { synchronized = false }) db) ≡ state_at id db
  desync h db =
      state-update id _ (λ d. record d { synchronized = false }) (λ d. (refl, refl)) db.devices

  kept-created :
      (now : ℕ) (h : String) (db : Db) → state_at id (link_created now h db) ≡ state_at id db
  kept-created now h db = desync h db

  kept-strict :
      (b : Bool) (now : ℕ) (h k : String) (db : Db)
      → state_at id (if b then link_created now h (link_created now k db) else db) ≡ state_at id db
  kept-strict true now h k db = kept-created now h (link_created now k db) ∙ kept-created now k db
  kept-strict false now h k db = refl

  kept-finish :
      (now : ℕ) (a : Option Device) (i : String) (b : Option Device) (j : String)
      (network : Option IpNetwork) (strict : Bool) (db : Db)
      → state_at id (finish_linknet now a i b j network strict db).1 ≡ state_at id db
  kept-finish now none i b j network strict db = refl
  kept-finish now (some a) i none j network strict db = refl
  kept-finish now (some a) i (some b) j network strict db =
      kept-strict strict now b.hostname a.hostname db

  kept-create :
      (now : ℕ) (host_a i host_b j : String) (network : Option IpNetwork) (strict : Bool) (db : Db)
      → state_at id (create_linknet now host_a i host_b j network strict db).1 ≡ state_at id db
  unfolding create_linknet
  kept-create now host_a i host_b j network strict db =
      if_elim (λ (r : Result Linknet × Db). state_at id r.1 ≡ state_at id db)
        (refuse_linknet (find_device host_a db.devices) (find_device host_b db.devices) network
          strict)
        (err value_error, db)
        (finish_linknet now (find_device host_a db.devices) i (find_device host_b db.devices) j
          network strict db)
        (λ e. refl) (λ e. kept-finish now _ i _ j network strict db)

  module _ (env : LinkEnv) (args : UpdateArgs) where
    kept-dry :
        (b : Bool) (ln : Linknet) (db : Db)
        → state_at id (if b then db else add_linknet ln db) ≡ state_at id db
    kept-dry true ln db = refl
    kept-dry false ln db = refl

    kept-keep :
        (local remote : Device) (redundant : Bool) (r : Result Linknet × Db)
        → state_at id (keep_link args local remote redundant r).1 ≡ state_at id r.1
    kept-keep local remote redundant (err e, db) = refl
    kept-keep local remote redundant (ok ln, db) = kept-dry args.dry_run ln db

    kept-new :
        (n : Neighbor) (local remote : Device) (redundant : Bool)
        (network : Result (Option IpNetwork)) (db : Db)
        → state_at id (new_link env args n local remote redundant network db).1 ≡ state_at id db
    kept-new n local remote redundant (err e) db = refl
    kept-new n local remote redundant (ok network) db =
        kept-keep local remote redundant _
        ∙ kept-create env.now local.hostname n.local_if remote.hostname n.port network _ db

    kept-replace :
        (idx : ℕ) (n : Neighbor) (local remote : Device) (redundant : Bool)
        (o : Result (Option Linknet)) (db : Db)
        → state_at id (replace_link env args idx n local remote redundant o db).1 ≡ state_at id db
    kept-replace idx n local remote redundant (err e) db = refl
    kept-replace idx n local remote redundant (ok none) db = kept-new n local remote redundant _ db
    kept-replace idx n local remote redundant (ok (some ln)) db =
        if_elim (λ (r : Result (List LinkDict) × Db). state_at id r.1 ≡ state_at id db) args.dry_run
          (make_link env args idx n local remote redundant db)
          (if same_link local.id n.local_if remote.id n.port ln
            then (ok (link_dict local remote ln redundant ∷ []), db)
            else make_link env args idx n local remote redundant (delete_linknet ln db))
          (λ e. kept-new n local remote redundant _ db)
          (λ e.
            if_elim (λ (r : Result (List LinkDict) × Db). state_at id r.1 ≡ state_at id db)
              (same_link local.id n.local_if remote.id n.port ln)
              (ok (link_dict local remote ln redundant ∷ []), db)
              (make_link env args idx n local remote redundant (delete_linknet ln db)) (λ k. refl)
              (λ k. kept-new n local remote redundant _ (delete_linknet ln db)))

    kept-checked :
        (idx : ℕ) (n : Neighbor) (local remote : Device) (r : Result Bool) (db : Db)
        → state_at id (checked_link env args idx n local remote r db).1 ≡ state_at id db
    kept-checked idx n local remote (err e) db = refl
    kept-checked idx n local remote (ok redundant) db =
        kept-replace idx n local remote redundant _ db

    kept-typed :
        (idx : ℕ) (n : Neighbor) (local remote : Device) (t : Option DeviceType) (db : Db)
        → state_at id (typed_link env args idx n local remote t db).1 ≡ state_at id db
    kept-typed idx n local remote none db = refl
    kept-typed idx n local remote (some t) db = kept-checked idx n local remote _ db

    kept-between :
        (idx : ℕ) (n : Neighbor) (local remote : Option Device) (db : Db)
        → state_at id (link_between env args idx n local remote db).1 ≡ state_at id db
    kept-between idx n none remote db = refl
    kept-between idx n (some local) none db = refl
    kept-between idx n (some local) (some remote) db = kept-typed idx n local remote _ db

    Kept-update_link : (idx : ℕ) (n : Neighbor) → Kept (update_link env args idx n)
    unfolding update_link
    Kept-update_link idx n = record { at = λ db. kept-between idx n _ _ db }

    Kept-update_links : (idx : ℕ) (ns : List Neighbor) → Kept (update_links env args idx ns)
    unfolding update_links
    Kept-update_links idx [] = Same-pure _ _
    Kept-update_links idx (n ∷ ns) =
        Same-bind _ _ _ (Kept-update_link idx n)
          (λ ls. Same-bind _ _ _ (Kept-update_links (suc idx) ns) (λ ls'. Same-pure _ _))

    kept-from :
        (local : Option Device) (ns : Result (List (String × (String × String)))) (db : Db)
        → state_at id (from_device env args local ns db).1 ≡ state_at id db
    unfolding raise
    kept-from local (err e) db = refl
    kept-from none (ok ns) db = refl
    kept-from (some d) (ok ns) db = (Kept-update_links 0 _).at db

    pub Kept-update_linknets :
        (ns : List (String × (String × String))) → Kept (update_linknets env args ns)
    unfolding update_linknets
    Kept-update_linknets ns = record { at = λ db. kept-from _ _ db }

  kept-plan :
      (dev : Device) (replace : Bool) (plan : Result Plan) (db : Db)
      → state_at id (write_plan dev replace plan db).1 ≡ state_at id db
  kept-plan dev replace (err e) db = refl
  kept-plan dev replace (ok plan) db = refl

  pub Kept-worker :
      (env : LinkEnv) (dev : Device) (peer : Option String) (ls : List LinkDict)
      → Kept (update_interfacedb_worker env dev true false peer ls)
  unfolding update_interfacedb_worker
  Kept-worker env dev peer ls = record { at = λ db. kept-plan dev true _ db }
