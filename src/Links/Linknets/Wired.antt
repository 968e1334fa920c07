-- ===== src/Links/Linknets/Wired.antt =====
-- No port is in two linknets, before and after an update.
use cnaas_nms.Prelude.{
  is_false, ℕ, suc, ◌≡◌, refl, ap, ◌∙◌, String, Bool, true, false, Option, none, some, List, [],
  ◌∷◌, if◌then◌else◌, select, any, first_sound, eq_iff, str_eq,
}
use cnaas_nms.Prelude.Exec.{Result, ok, err, raise, value_error}
use cnaas_nms.Prelude.Keeps.{Keeps, Keeps-bind, Keeps-pure}
use cnaas_nms.Schema.{Db, Device, DeviceType, Linknet, IpNetwork}
use cnaas_nms.Topology.{LinkDict, create_linknet, finish_linknet, new_linknet}
use cnaas_nms.Sync.Tasks.{find_device}
use cnaas_nms.Links.{LinkEnv}
use cnaas_nms.Links.Linknets.{
  UpdateArgs, Neighbor, update_linknets, update_links, update_link, link_between, typed_link,
  checked_link, replace_link, make_link, new_link, keep_link, from_device, touches, one_or_none,
  same_link, link_dict, delete_linknet, add_linknet,
}
use cnaas_nms.Links.Linknets.Ports.{IsWired, IsWired-append, IsWired-select, any-none, any-one}

-- What `create_linknet` returns joins the two ports, and it writes no linknet.
abbrev Made : Db → Device → String → Device → String → Result Linknet × Db → Type 0
Made db a i b j (r, db') =
    (db'.linknets ≡ db.linknets)
    × ((ln : Linknet) → r ≡ ok ln → (net : Option IpNetwork) × (ln ≡ new_linknet a i b j net))

finish-Made :
    (now : ℕ) (a : Device) (i : String) (b : Device) (j : String) (net : Option IpNetwork)
    (strict : Bool) (db : Db) (x y : Option Device)
    → x ≡ some a
    → y ≡ some b
    → Made db a i b j (finish_linknet now x i y j net strict db)
finish-Made now a i b j net strict db none y hx hy = cc
finish-Made now a i b j net strict db (some x) none hx hy = cc
finish-Made now a i b j net true db (some x) (some y) hx hy = (refl, λ ln h. (net, cc))
finish-Made now a i b j net false db (some x) (some y) hx hy = (refl, λ ln h. (net, cc))

refused-Made :
    (refuse : Bool) (db : Db) (a : Device) (i : String) (b : Device) (j : String)
    (r : Result Linknet × Db)
    → Made db a i b j r
    → Made db a i b j (if refuse then (err value_error, db) else r)
refused-Made true db a i b j r h = (refl, λ ln k. cc)
refused-Made false db a i b j r h = h

create-Made :
    (now : ℕ) (a : Device) (i : String) (b : Device) (j : String) (net : Option IpNetwork)
    (strict : Bool) (db : Db)
    → find_device a.hostname db.devices ≡ some a
    → find_device b.hostname db.devices ≡ some b
    → Made db a i b j (create_linknet now a.hostname i b.hostname j net strict db)
unfolding create_linknet
create-Made now a i b j net strict db ha hb =
    refused-Made _ db a i b j _ (finish-Made now a i b j net strict db _ _ ha hb)

-- A device that is found under a name is found under its own.
found_again :
    (h : String) (db : Db) (d : Device)
    → find_device h db.devices ≡ some d
    → find_device d.hostname db.devices ≡ some d
found_again h db d e =
    ap (λ h'. find_device h' db.devices)
      ((eq_iff d.hostname h).0 (first_sound (λ x. str_eq x.hostname h) db.devices d e))
    ∙ e

added-IsWired :
    (ln : Linknet) (db : Db) (ls : List Linknet) (a b : Device) (i j : String)
    (net : Option IpNetwork)
    → db.linknets ≡ ls
    → ln ≡ new_linknet a i b j net
    → any (touches a.id i b.id j) ls ≡ false
    → IsWired ls
    → IsWired (add_linknet ln db).linknets
added-IsWired ln db ls a b i j net same made free w =
    rw (same, made)
      (IsWired-append ls (record (new_linknet a i b j net) { id = db.next_linknet_id }) w free)

module _ (env : LinkEnv) (args : UpdateArgs) where
  -- A turn that writes finds no link at the two ports.
  abbrev Ready : Bool → Device → Neighbor → Device → Db → Type 0
  Ready true local n remote db = Unit
  Ready false local n remote db =
      any (touches local.id n.local_if remote.id n.port) db.linknets ≡ false

  kept-IsWired :
      (dry : Bool) (n : Neighbor) (local remote : Device) (ln : Linknet) (db db' : Db)
      → Made db local n.local_if remote n.port (ok ln, db')
      → Ready dry local n remote db
      → IsWired db.linknets
      → IsWired (if dry then db' else add_linknet ln db').linknets
  kept-IsWired true n local remote ln db db' made ready w = rw (made.0) w
  kept-IsWired false n local remote ln db db' made ready w =
      let (net, is) = made.1 ln refl in
      added-IsWired ln db' db.linknets local remote n.local_if n.port net made.0 is ready w

  keep-IsWired :
      (n : Neighbor) (local remote : Device) (redundant : Bool) (db : Db) (r : Result Linknet × Db)
      → Made db local n.local_if remote n.port r
      → Ready args.dry_run local n remote db
      → IsWired db.linknets
      → IsWired (keep_link args local remote redundant r).1.linknets
  keep-IsWired n local remote redundant db (err e, db') made ready w = rw (made.0) w
  keep-IsWired n local remote redundant db (ok ln, db') made ready w =
      kept-IsWired args.dry_run n local remote ln db db' made ready w

  new-IsWired :
      (n : Neighbor) (local remote : Device) (redundant : Bool)
      (network : Result (Option IpNetwork)) (db : Db)
      → find_device local.hostname db.devices ≡ some local
      → find_device remote.hostname db.devices ≡ some remote
      → Ready args.dry_run local n remote db
      → IsWired db.linknets
      → IsWired (new_link env args n local remote redundant network db).1.linknets
  new-IsWired n local remote redundant (err e) db hl hr ready w = w
  new-IsWired n local remote redundant (ok network) db hl hr ready w =
      keep-IsWired n local remote redundant db _
        (create-Made env.now local n.local_if remote n.port network (is_false args.dry_run) db hl
          hr)
        ready w

  Ready-always :
      (dry : Bool) (local : Device) (n : Neighbor) (remote : Device) (db : Db)
      → any (touches local.id n.local_if remote.id n.port) db.linknets ≡ false
      → Ready dry local n remote db
  Ready-always true local n remote db h = tt
  Ready-always false local n remote db h = h

  Ready-dry :
      (dry : Bool) (local : Device) (n : Neighbor) (remote : Device) (db : Db)
      → dry ≡ true
      → Ready dry local n remote db
  Ready-dry true local n remote db h = tt
  Ready-dry false local n remote db h = cc

  one-none : (ls : List Linknet) → one_or_none ls ≡ ok none → ls ≡ []
  one-none [] h = refl
  one-none (l ∷ []) h = cc
  one-none (l ∷ m ∷ ls) h = cc

  one-some : (ls : List Linknet) (x : Linknet) → one_or_none ls ≡ ok (some x) → ls ≡ x ∷ []
  one-some [] x h = cc
  one-some (l ∷ []) x h = cc
  one-some (l ∷ m ∷ ls) x h = cc

  if-IsWired :
      (b : Bool) (x y : Result (List LinkDict) × Db)
      → (b ≡ true → IsWired x.1.linknets)
      → (b ≡ false → IsWired y.1.linknets)
      → IsWired (if b then x else y).1.linknets
  if-IsWired true x y hx hy = hx refl
  if-IsWired false x y hx hy = hy refl

  replace-IsWired :
      (idx : ℕ) (n : Neighbor) (local remote : Device) (redundant : Bool)
      (o : Result (Option Linknet)) (db : Db)
      → one_or_none (select (touches local.id n.local_if remote.id n.port) db.linknets) ≡ o
      → find_device local.hostname db.devices ≡ some local
      → find_device remote.hostname db.devices ≡ some remote
      → IsWired db.linknets
      → IsWired (replace_link env args idx n local remote redundant o db).1.linknets
  replace-IsWired idx n local remote redundant (err e) db h hl hr w = w
  replace-IsWired idx n local remote redundant (ok none) db h hl hr w =
      new-IsWired n local remote redundant _ db hl hr
        (Ready-always args.dry_run local n remote db (any-none _ db.linknets (one-none _ h))) w
  replace-IsWired idx n local remote redundant (ok (some ln)) db h hl hr w =
      if-IsWired args.dry_run _ _
        (λ e.
          new-IsWired n local remote redundant _ db hl hr
            (Ready-dry args.dry_run local n remote db e) w)
        (λ e.
          if-IsWired (same_link local.id n.local_if remote.id n.port ln)
            (ok (link_dict local remote ln redundant ∷ []), db)
            (make_link env args idx n local remote redundant (delete_linknet ln db)) (λ same. w)
            (λ differ.
              new-IsWired n local remote redundant _ (delete_linknet ln db) hl hr
                (Ready-always args.dry_run local n remote (delete_linknet ln db) (
                  any-one (touches local.id n.local_if remote.id n.port) db.linknets ln
                    (one-some _ ln h)))
                (IsWired-select _ db.linknets w)))

  checked-IsWired :
      (idx : ℕ) (n : Neighbor) (local remote : Device) (r : Result Bool) (db : Db)
      → find_device local.hostname db.devices ≡ some local
      → find_device remote.hostname db.devices ≡ some remote
      → IsWired db.linknets
      → IsWired (checked_link env args idx n local remote r db).1.linknets
  checked-IsWired idx n local remote (err e) db hl hr w = w
  checked-IsWired idx n local remote (ok redundant) db hl hr w =
      replace-IsWired idx n local remote redundant _ db refl hl hr w

  typed-IsWired :
      (idx : ℕ) (n : Neighbor) (local remote : Device) (t : Option DeviceType) (db : Db)
      → find_device local.hostname db.devices ≡ some local
      → find_device remote.hostname db.devices ≡ some remote
      → IsWired db.linknets
      → IsWired (typed_link env args idx n local remote t db).1.linknets
  typed-IsWired idx n local remote none db hl hr w = w
  typed-IsWired idx n local remote (some t) db hl hr w =
      checked-IsWired idx n local remote _ db hl hr w

  between-IsWired :
      (idx : ℕ) (n : Neighbor) (h k : String) (local remote : Option Device) (db : Db)
      → find_device h db.devices ≡ local
      → find_device k db.devices ≡ remote
      → IsWired db.linknets
      → IsWired (link_between env args idx n local remote db).1.linknets
  between-IsWired idx n h k none remote db hl hr w = w
  between-IsWired idx n h k (some local) none db hl hr w = w
  between-IsWired idx n h k (some local) (some remote) db hl hr w =
      typed-IsWired idx n local remote _ db (found_again h db local hl) (found_again k db remote hr)
        w

  abbrev pub Wired : Db → Type 0
  Wired db = IsWired db.linknets

  update_link-Keeps : (idx : ℕ) (n : Neighbor) → Keeps Wired (update_link env args idx n)
  unfolding update_link
  update_link-Keeps idx n = record {
    at = λ db w. between-IsWired idx n args.hostname n.hostname _ _ db refl refl w;
  }

  update_links-Keeps : (idx : ℕ) (ns : List Neighbor) → Keeps Wired (update_links env args idx ns)
  unfolding update_links
  update_links-Keeps idx [] = Keeps-pure _ _
  update_links-Keeps idx (n ∷ ns) =
      Keeps-bind _ _ _ (update_link-Keeps idx n)
        (λ ls. Keeps-bind _ _ _ (update_links-Keeps (suc idx) ns) (λ ls'. Keeps-pure _ _))

  from-IsWired :
      (local : Option Device) (ns : Result (List (String × (String × String)))) (db : Db)
      → IsWired db.linknets
      → IsWired (from_device env args local ns db).1.linknets
  unfolding raise
  from-IsWired local (err e) db w = w
  from-IsWired none (ok ns) db w = w
  from-IsWired (some d) (ok ns) db w = (update_links-Keeps 0 _).at db w

-- An update of linknets, real or dry, keeps every port of a device in one linknet at most, also where
-- it raises after some of its turns.
pub update_linknets-IsWired :
    (env : LinkEnv) (args : UpdateArgs) (neighbors_arg : List (String × (String × String)))
    (db : Db)
    → IsWired db.linknets
    → IsWired (update_linknets env args neighbors_arg db).1.linknets
unfolding update_linknets
update_linknets-IsWired env args neighbors_arg db w = from-IsWired env args _ _ db w
