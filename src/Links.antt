-- ===== src/Links.antt =====
-- What a device's neighbours and interfaces say about the database: src/cnaas_nms/devicehandler/get.py
-- and src/cnaas_nms/devicehandler/update.py. The devices' answers and the settings are parameters.
pub mod Iftype
pub mod Uplinks
pub mod Interfaces
pub mod Linknets
pub mod SetFacts
use cnaas_nms.Prelude.{
  ℕ, ◌≡◌, refl, String, Bool, Option, none, some, List, ◌==◌, ◌||◌, ◌&&◌, str_eq, first,
}
use cnaas_nms.Prelude.Exec.{Result, ok, err}
use cnaas_nms.Schema.{Db, Device, DeviceType, Interface, IpNetwork, type_eq}

-- An entry of `interfaces` of a device's settings.
pub record InterfaceSettings : Type 0 where
  pub name : String
  pub ifclass : String
  pub redundant_link : Bool

-- What NAPALM's `get_facts` gives, as far as it is stored.
pub record Facts : Type 0 where
  pub hostname : String
  pub serial_number : String
  pub vendor : String
  pub model : String
  pub os_version : String

pub record LinkEnv : Type 0 where
  -- `get_neighbors(hostname)`: the ports of a device, each with the name and the port of its first
  -- LLDP neighbour
  pub lldp_neighbors : String → Result (List (String × (String × String)))
  -- `get_settings(hostname, devtype, model)["interfaces"]`: none, where there is no such key
  pub get_settings : String → DeviceType → Option String → Result (Option (List InterfaceSettings))
  pub interface_range_expansion : String → List String  -- of netutils
  pub interfaces_names : String → Result (List String)  -- `get_interfaces_names`
  pub infra_link_net : IpNetwork  -- the setting `underlay.infra_link_net`
  pub now : ℕ

-- `session.query(Device).filter(Device.id == device_id).one_or_none()`
abbrev pub find_id : ℕ → List Device → Option Device
find_id id devices = first (λ d. d.id == id) devices

-- `device_type in [DeviceType.DIST, DeviceType.CORE]`
abbrev pub is_fabric : DeviceType → Bool
is_fabric t = type_eq t DeviceType.dist || type_eq t DeviceType.core

-- `session.query(Interface).filter(Interface.device == dev).filter(Interface.name == name)`
abbrev pub is_interface : ℕ → String → Interface → Bool
is_interface device_id name i = i.device_id == device_id && str_eq i.name name

abbrev pub then_do {ℓ} : {A B : Type ℓ} → Result A → (A → Result B) → Result B
then_do (err e) f = err e
then_do (ok a) f = f a

-- A chain that returned has gone through its first part.
pub then_do-returned {ℓ} :
    {A B : Type ℓ} (r : Result A) (f : A → Result B) (b : B)
    → then_do r f ≡ ok b
    → (a : A) × (r ≡ ok a) × (f a ≡ ok b)
then_do-returned (err e) f b h = cc
then_do-returned (ok a) f b h = (a, refl, h)

-- What `napalm_get` of the facts gives for one device: no contact, a result without facts, or facts.
pub data FactsAnswer : Type 0 where
  failed missing : FactsAnswer
  got : Facts → FactsAnswer
