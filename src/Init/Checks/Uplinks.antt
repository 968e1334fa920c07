-- ===== src/Init/Checks/Uplinks.antt =====
-- The access devices whose neighbours are accepted.
use cnaas_nms.Prelude.{
  ◌≡◌, ◌⊎◌, ◌+◌, ℕ, Any, ◌≤◌, String, true, false, Option, none, some, List, [], ◌∷◌, length, All,
}
use cnaas_nms.Prelude.Exec.{ok}
use cnaas_nms.Schema.{Db, Device, DeviceType, Mgmtdomain}
use cnaas_nms.Lookup.{find_mgmtdomain}
use cnaas_nms.Sync.Tasks.{find_device}
use cnaas_nms.Topology.{LinkDict}
use cnaas_nms.Init.Checks.{Seen, see_links, no_links}

-- The name is that of an access or DIST device of the database.
abbrev pub IsUplink : Db → String → Type 0
IsUplink db name =
    (d : Device) × (find_device name db.devices ≡ some d)
    × ((d.device_type ≡ DeviceType.access) ⊎ (d.device_type ≡ DeviceType.dist))

abbrev pub IsPeer : Db → Option Device → String → Type 0
IsPeer db mlag_peer name =
    (d : Device) × (peer : Device) × (find_device name db.devices ≡ some d)
    × (mlag_peer ≡ some peer)
    × (d.id ≡ peer.id)

-- A link needs redundancy unless it says that it does not.
abbrev pub IsRedundant : LinkDict → Type 0
IsRedundant l = (l.redundant_link ≡ none) ⊎ (l.redundant_link ≡ some true)

-- So many of the links need redundancy.
abbrev pub Redundant : List LinkDict → ℕ → Type 0
Redundant [] n = n ≡ 0
Redundant (l ∷ ls) n =
    (l.redundant_link ≡ some false) × Redundant ls n
    ⊎ IsRedundant l × (m : ℕ) × (n ≡ m + 1) × Redundant ls m

-- What the loop keeps over the links `seen_links`: every uplink is a known device of a fitting type, on
-- a link of its own, and the number of those that need redundancy is counted; every MLAG peer is the
-- one that is given; and the neighbours are the uplinks and the MLAG peers.
abbrev pub Counted : Db → Option Device → (LinkDict → Type 0) → Seen → Type 0
Counted db mlag_peer Given seen =
    All (IsUplink db) seen.uplinks
    × All (IsPeer db mlag_peer) seen.mlag_peers
    × (length seen.neighbors ≡ length seen.uplinks + length seen.mlag_peers)
    × (links : List LinkDict) × All Given links
    × (length links ≡ length seen.uplinks)
    × Redundant links seen.redundant_uplinks

-- One uplink without redundancy, or two with it.
abbrev pub UplinksFit : List LinkDict → Type 0
UplinksFit [] = ⊥
UplinksFit (l ∷ []) = l.redundant_link ≡ some false
UplinksFit (l ∷ k ∷ []) = IsRedundant l × IsRedundant k
UplinksFit (l ∷ k ∷ j ∷ ls) = ⊥

abbrev pub HasPeerLinks : Option Device → Seen → Type 0
HasPeerLinks mlag_peer seen = (peer : Device) → mlag_peer ≡ some peer → 2 ≤ length seen.mlag_peers

abbrev pub IsIn : List LinkDict → LinkDict → Type 0
IsIn linknets l = Any (λ k. k ≡ l) linknets

abbrev pub AccessChecked : Db → Device → List LinkDict → Option Device → List String → Type 0
AccessChecked db dev linknets mlag_peer names =
    (seen : Seen) × (see_links db dev mlag_peer no_links linknets ≡ ok seen)
    × (names ≡ seen.neighbors)
    × All (IsUplink db) seen.uplinks
    × All (IsPeer db mlag_peer) seen.mlag_peers
    × (length names ≡ length seen.uplinks + length seen.mlag_peers)
    × HasPeerLinks mlag_peer seen
    × ((links : List LinkDict) × All (IsIn linknets) links
        × (length links ≡ length seen.uplinks)
        × UplinksFit links)
    × (m : Option Mgmtdomain) × (find_mgmtdomain db seen.uplinks ≡ ok m)
