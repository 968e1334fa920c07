-- ===== src/Addressing/Free.antt =====
-- The addresses that the searches return.
use cnaas_nms.Prelude.{
  ℕ, ◌+◌, ◌-◌, ◌*◌, ◌^◌, ◌≡◌, ◌≤◌, ◌<◌, refl, Bool, true, false, Option, none, some, arith,
}
use cnaas_nms.Prelude.Exec.{ok}
use cnaas_nms.Schema.{Db, IpAddress, IpNetwork}
use cnaas_nms.Addressing.{
  Range, hosts, islice, first_link, is_used_link, address, link_at, find_free_infra_linknet,
}
use cnaas_nms.Addressing.Scan.{first_link_sound, free_links}

-- The host addresses of a network that a search may hand out.
abbrev pub candidates : ℕ → IpNetwork → Range
candidates reserved_count net = islice (hosts net) reserved_count

-- The first address of the range that `p` does not hold back.
abbrev pub IsFirst : (IpAddress → Bool) → ℕ → Range → IpAddress → Type 0
IsFirst p version r a =
    (a.version ≡ version)
    × (r.base ≤ a.value)
    × (a.value < r.base + r.count)
    × (p a ≡ false)
    × ((v : ℕ) → r.base ≤ v → v < a.value → p (address version v) ≡ true)

link_found :
    (net : IpNetwork) (db : Db) (offset : ℕ) (found : IpNetwork)
    → find_free_infra_linknet net db offset ≡ ok (some found)
    → link_at (first_link (is_used_link db) offset net.network_address (2 ^ (31 - net.prefixlen)))
      ≡ some found
unfolding find_free_infra_linknet
link_found net db offset found h = ground arith

found_link :
    (net : IpNetwork) (db : Db) (offset : ℕ) (o : Option ℕ) (found : IpNetwork)
    → first_link (is_used_link db) offset net.network_address (2 ^ (31 - net.prefixlen)) ≡ o
    → link_at o ≡ some found
    → (n : ℕ) × (found
        ≡ record { version = 4; network_address = net.network_address + 2 * n; prefixlen = 31 })
      × (n < 2 ^ (31 - net.prefixlen))
      × (is_used_link db found.network_address ≡ false)
      × (free_links (is_used_link db) net.network_address n ≡ offset)
found_link net db offset none found e h = cc
found_link net db offset (some x) found e h =
    let (n, at, below, free, before) =
      first_link_sound (is_used_link db) offset net.network_address (2 ^ (31 - net.prefixlen)) x
        e in
    let addr : found.network_address ≡ x = ground arith in
    (n, ground arith, below, rw addr free, before)

-- A linknet found for the underlay lies in the configured network on a /31 boundary, no linknet with
-- addresses uses it, and exactly `offset` free ones come before it.
pub find_free_infra_linknet_free :
    (net : IpNetwork) (db : Db) (offset : ℕ) (found : IpNetwork)
    → find_free_infra_linknet net db offset ≡ ok (some found)
    → (n : ℕ) × (found
        ≡ record { version = 4; network_address = net.network_address + 2 * n; prefixlen = 31 })
      × (n < 2 ^ (31 - net.prefixlen))
      × (is_used_link db found.network_address ≡ false)
      × (free_links (is_used_link db) net.network_address n ≡ offset)
find_free_infra_linknet_free net db offset found h =
    found_link net db offset
      (first_link (is_used_link db) offset net.network_address (2 ^ (31 - net.prefixlen))) found
      refl (link_found net db offset found h)
