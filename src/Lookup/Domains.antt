-- ===== src/Lookup/Domains.antt =====
-- The order of the two uplink devices.
use cnaas_nms.Prelude.{
  ℕ, ◌≡◌, refl, String, Bool, true, false, Option, none, some, List, [], ◌∷◌, arith, select,
}
use cnaas_nms.Prelude.Exec.{Result, ok, err}
use cnaas_nms.Schema.{Db, Device, DeviceType, Mgmtdomain}
use cnaas_nms.Sync.Tasks.{find_device}
use cnaas_nms.Lookup.{
  find_mgmtdomain, find_for_two, find_mgmtdomain_by_ip, joins, same_domain, by_types, pair_domain,
  is_type, with_two,
}

select-joins :
    (a b : ℕ) (doms : List Mgmtdomain) → select (joins a b) doms ≡ select (joins b a) doms
select-joins a b [] = refl
select-joins a b (dom ∷ doms) = ground (arith, select-joins a b doms)

-- The two results name the same domain.
abbrev pub Agrees : Mgmtdomain → Result (Option Mgmtdomain) → Type 0
Agrees dom r = (dom' : Mgmtdomain) × (r ≡ ok (some dom')) × (dom'.id ≡ dom.id)

same_domain-Agrees :
    (r s : Result (Option Mgmtdomain)) (dom : Mgmtdomain)
    → same_domain r s ≡ ok (some dom)
    → Agrees dom (same_domain s r)
same_domain-Agrees (err e) s dom h = cc
same_domain-Agrees (ok none) (err e) dom h = cc
same_domain-Agrees (ok (some x)) (err e) dom h = cc
same_domain-Agrees (ok none) (ok m) dom h = cc
same_domain-Agrees (ok (some x)) (ok none) dom h = cc
same_domain-Agrees (ok (some x)) (ok (some y)) dom h = (y, ground arith, ground arith)

by_types-Agrees :
    (a b c e : Bool) (pair x y : Result (Option Mgmtdomain)) (dom : Mgmtdomain)
    → (x ≡ ok (some dom) → Agrees dom y)
    → by_types a b c e pair x ≡ ok (some dom)
    → Agrees dom (by_types b a e c pair y)
by_types-Agrees true true c e pair x y dom f h = (dom, h, refl)
by_types-Agrees true false c e pair x y dom f h = cc
by_types-Agrees false true c e pair x y dom f h = cc
by_types-Agrees false false true true pair x y dom f h = f h
by_types-Agrees false false true false pair x y dom f h = cc
by_types-Agrees false false false true pair x y dom f h = cc
by_types-Agrees false false false false pair x y dom f h = cc

find_for_two-Agrees :
    (db : Db) (d e : Device) (dom : Mgmtdomain)
    → find_for_two db d e ≡ ok (some dom)
    → Agrees dom (find_for_two db e d)
unfolding find_for_two
find_for_two-Agrees db d e dom h =
    let x = find_mgmtdomain_by_ip d.management_ip db.mgmtdomains in
    let y = find_mgmtdomain_by_ip e.management_ip db.mgmtdomains in
    rw (select-joins e.id d.id db.mgmtdomains) (
      by_types-Agrees (is_type DeviceType.dist d) (is_type DeviceType.dist e)
        (is_type DeviceType.access d) (is_type DeviceType.access e) (pair_domain db d.id e.id)
        (same_domain x y) (same_domain y x) dom (same_domain-Agrees x y dom) h)

with_two-Agrees :
    (db : Db) (x y : Option Device) (dom : Mgmtdomain)
    → with_two db x y ≡ ok (some dom)
    → Agrees dom (with_two db y x)
with_two-Agrees db none none dom h = cc
with_two-Agrees db none (some e) dom h = cc
with_two-Agrees db (some d) none dom h = cc
with_two-Agrees db (some d) (some e) dom h = find_for_two-Agrees db d e dom h

-- A management domain found for two uplink devices is found for them in the other order too: the
-- two calls name the same domain.
pub find_mgmtdomain-Agrees :
    (db : Db) (a b : String) (dom : Mgmtdomain)
    → find_mgmtdomain db (a ∷ b ∷ []) ≡ ok (some dom)
    → Agrees dom (find_mgmtdomain db (b ∷ a ∷ []))
unfolding find_mgmtdomain
find_mgmtdomain-Agrees db a b dom h =
    let (dom', is, same) =
      with_two-Agrees db (find_device a db.devices) (find_device b db.devices) dom
        (ground (arith, h)) in
    (dom', ground (arith, h, is), same)
