-- ===== src/Topology/Created.antt =====
-- What creating a linknet does.
use cnaas_nms.Prelude.{
  ℕ, ◌+◌, ◌≡◌, ◌≢◌, refl, String, Bool, true, false, Option, none, some, ◌&&◌, if◌then◌else◌, arith,
  Bool-cases, inl, inr, ◌⊎◌, ==_refl,
}
use cnaas_nms.Prelude.Exec.{Result, ok, err, value_error}
use cnaas_nms.Schema.{Db, Device, Linknet, IpNetwork}
use cnaas_nms.Sync.Tasks.{find_device}
use cnaas_nms.Topology.{
  create_linknet, get_port, get_ip, may_be_numbered, refuse_linknet, finish_linknet, new_linknet,
}

-- The link `ln` joins `a` and `b` over `net` as asked.
abbrev pub Joins : Device → String → Device → String → IpNetwork → Bool → Linknet → Type 0
Joins a interface_a b interface_b net strict ln =
    (get_port ln a.id ≡ ok interface_a)
    × (get_ip ln a.id ≡ ok (some (record { version = 4; value = net.network_address })))
    × (a.id ≢ b.id → get_port ln b.id ≡ ok interface_b)
    × (a.id ≢ b.id
        → get_ip ln b.id ≡ ok (some (record { version = 4; value = net.network_address + 1 })))
    × (net.prefixlen ≡ 31)
    × (strict ≡ true → (may_be_numbered a && may_be_numbered b) ≡ true)

joins :
    (a : Device) (interface_a : String) (b : Device) (interface_b : String) (net : IpNetwork)
    (strict : Bool)
    → refuse_linknet (some a) (some b) (some net) strict ≡ false
    → Joins a interface_a b interface_b net strict
        (new_linknet a interface_a b interface_b (some net))
unfolding get_port get_ip
joins a interface_a b interface_b net strict h = (
  ground (arith, ==_refl a.id),
  ground (arith, ==_refl a.id),
  λ ne. ground arith,
  λ ne. ground arith,
  ground arith,
  λ s. ground arith,
)

abbrev pub Created :
    String → String → String → String → IpNetwork → Bool → Db → Result Linknet × Db → Type 0
Created hostname_a interface_a hostname_b interface_b net strict db (r, db') =
    ((r ≡ err value_error) × (db' ≡ db))
    ⊎ ((ln : Linknet) × (a : Device) × (b : Device) × (r ≡ ok ln)
        × (find_device hostname_a db.devices ≡ some a)
        × (find_device hostname_b db.devices ≡ some b)
        × Joins a interface_a b interface_b net strict ln)

created :
    (now : ℕ) (hostname_a interface_a hostname_b interface_b : String) (net : IpNetwork)
    (strict : Bool) (db : Db) (dev_a dev_b : Option Device)
    → find_device hostname_a db.devices ≡ dev_a
    → find_device hostname_b db.devices ≡ dev_b
    → Created hostname_a interface_a hostname_b interface_b net strict db (
        if refuse_linknet dev_a dev_b (some net) strict
        then (err value_error, db)
        else finish_linknet now dev_a interface_a dev_b interface_b (some net) strict db)
created now hostname_a interface_a hostname_b interface_b net strict db none dev_b ha hb =
    inl (refl, refl)
created now hostname_a interface_a hostname_b interface_b net strict db (some a) none ha hb =
    inl (refl, refl)
created now hostname_a interface_a hostname_b interface_b net strict db (some a) (some b) ha hb =
    elim (Bool-cases (refuse_linknet (some a) (some b) (some net) strict)) [
      | inl e ↦ rw e (inl (refl, refl))
      | inr e ↦ rw e (
          inr (
            new_linknet a interface_a b interface_b (some net),
            a,
            b,
            refl,
            ha,
            hb,
            joins a interface_a b interface_b net strict e,
          ))
    ]

-- Creating a linknet over a network. If it is refused, nothing changes. If it is made, it joins
-- two devices of the table: the port and the address that it gives for each end are those asked
-- for (for the second end if the devices differ), the network is a /31 of which it takes both
-- addresses, and a strict call numbers core and distribution devices only.
pub create_linknet_outcome :
    (now : ℕ) (hostname_a interface_a hostname_b interface_b : String) (net : IpNetwork)
    (strict : Bool) (db : Db)
    → Created hostname_a interface_a hostname_b interface_b net strict db
        (create_linknet now hostname_a interface_a hostname_b interface_b (some net) strict db)
unfolding create_linknet
create_linknet_outcome now hostname_a interface_a hostname_b interface_b net strict db =
    created now hostname_a interface_a hostname_b interface_b net strict db
      (find_device hostname_a db.devices) (find_device hostname_b db.devices) refl refl
