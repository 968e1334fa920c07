-- ===== src/Links/Linknets/DryRun.antt =====
-- A dry run of `update_linknets`.
use cnaas_nms.Prelude.{
  ℕ, suc, ◌≡◌, refl, ◌∙◌, String, Bool, true, false, Option, none, some, List, [], ◌∷◌,
  if◌then◌else◌,
}
use cnaas_nms.Prelude.Exec.{Result, ok, err, raise, value_error}
use cnaas_nms.Prelude.Same.{Same, Same-bind, Same-pure}
use cnaas_nms.Schema.{Db, Device, DeviceType, Linknet, IpNetwork}
use cnaas_nms.Topology.{create_linknet, refuse_linknet, finish_linknet}
use cnaas_nms.Sync.Tasks.{find_device}
use cnaas_nms.Links.{LinkEnv}
use cnaas_nms.Links.Linknets.{
  UpdateArgs, Neighbor, update_linknets, update_links, update_link, link_between, typed_link,
  checked_link, replace_link, new_link, keep_link, from_device,
}

finish-same :
    (now : ℕ) (a : Option Device) (i : String) (b : Option Device) (j : String)
    (network : Option IpNetwork) (db : Db)
    → (finish_linknet now a i b j network false db).1 ≡ db
finish-same now none i b j network db = refl
finish-same now (some a) i none j network db = refl
finish-same now (some a) i (some b) j network db = refl

create-same :
    (now : ℕ) (host_a i host_b j : String) (network : Option IpNetwork) (db : Db)
    → (create_linknet now host_a i host_b j network false db).1 ≡ db
unfolding create_linknet
create-same now host_a i host_b j network db =
    go
      (refuse_linknet (find_device host_a db.devices) (find_device host_b db.devices) network false)
  where
    go :
        (b : Bool)
        → (if b
            then (err value_error, db)
            else finish_linknet now
                (find_device host_a db.devices)
                i
                (find_device host_b db.devices)
                j
                network
                false
                db).1
          ≡ db
    go true = refl
    go false = finish-same now _ i _ j network db

abbrev pub dry : UpdateArgs → UpdateArgs
dry args = record args { dry_run = true }

module _ (env : LinkEnv) (args : UpdateArgs) where
  keep-same :
      (local remote : Device) (redundant : Bool) (r : Result Linknet × Db)
      → (keep_link (dry args) local remote redundant r).1 ≡ r.1
  keep-same local remote redundant (err e, db) = refl
  keep-same local remote redundant (ok ln, db) = refl

  new-same :
      (n : Neighbor) (local remote : Device) (redundant : Bool)
      (network : Result (Option IpNetwork)) (db : Db)
      → (new_link env (dry args) n local remote redundant network db).1 ≡ db
  new-same n local remote redundant (err e) db = refl
  new-same n local remote redundant (ok network) db =
      (keep-same local remote redundant _
        ∙ create-same env.now local.hostname n.local_if remote.hostname n.port network db)

  replace-same :
      (idx : ℕ) (n : Neighbor) (local remote : Device) (redundant : Bool)
      (o : Result (Option Linknet)) (db : Db)
      → (replace_link env (dry args) idx n local remote redundant o db).1 ≡ db
  replace-same idx n local remote redundant (err e) db = refl
  replace-same idx n local remote redundant (ok none) db = new-same n local remote redundant _ db
  replace-same idx n local remote redundant (ok (some ln)) db =
      (new-same n local remote redundant _ db)

  checked-same :
      (idx : ℕ) (n : Neighbor) (local remote : Device) (r : Result Bool) (db : Db)
      → (checked_link env (dry args) idx n local remote r db).1 ≡ db
  checked-same idx n local remote (err e) db = refl
  checked-same idx n local remote (ok redundant) db = replace-same idx n local remote redundant _ db

  typed-same :
      (idx : ℕ) (n : Neighbor) (local remote : Device) (t : Option DeviceType) (db : Db)
      → (typed_link env (dry args) idx n local remote t db).1 ≡ db
  typed-same idx n local remote none db = refl
  typed-same idx n local remote (some t) db = checked-same idx n local remote _ db

  between-same :
      (idx : ℕ) (n : Neighbor) (local remote : Option Device) (db : Db)
      → (link_between env (dry args) idx n local remote db).1 ≡ db
  between-same idx n none remote db = refl
  between-same idx n (some local) none db = refl
  between-same idx n (some local) (some remote) db = typed-same idx n local remote _ db

  update_link-Same : (idx : ℕ) (n : Neighbor) → Same (λ db. db) (update_link env (dry args) idx n)
  unfolding update_link
  update_link-Same idx n = record { at = λ db. between-same idx n _ _ db }

  update_links-Same :
      (idx : ℕ) (ns : List Neighbor) → Same (λ db. db) (update_links env (dry args) idx ns)
  unfolding update_links
  update_links-Same idx [] = Same-pure _ _
  update_links-Same idx (n ∷ ns) =
      Same-bind _ _ _ (update_link-Same idx n)
        (λ ls. Same-bind _ _ _ (update_links-Same (suc idx) ns) (λ ls'. Same-pure _ _))

  from-same :
      (local : Option Device) (ns : Result (List (String × (String × String)))) (db : Db)
      → (from_device env (dry args) local ns db).1 ≡ db
  unfolding raise
  from-same local (err e) db = refl
  from-same none (ok ns) db = refl
  from-same (some d) (ok ns) db = (update_links-Same 0 _).at db

-- A dry run of `update_linknets` leaves the database as it is, whether it returns or raises.
pub update_linknets-dry_run :
    (env : LinkEnv) (args : UpdateArgs) (neighbors_arg : List (String × (String × String)))
    (db : Db)
    → (update_linknets env (dry args) neighbors_arg db).1 ≡ db
unfolding update_linknets
update_linknets-dry_run env args neighbors_arg db = from-same env args _ _ db
