-- ===== src/Topology/Mlag.antt =====
-- `Device.get_mlag_peer` of src/cnaas_nms/db/device.py.
use cnaas_nms.Prelude.{
  ℕ, ◌≡◌, refl, sym, ◌∙◌, String, Bool, true, false, Option, none, some, List, [], ◌∷◌, ◌||◌, ◌&&◌,
  ◌==◌, if◌then◌else◌, first, any, str_eq, arith, first_sound, inl, inr, Bool-cases,
}
use mathlib.Core.Path.{subst}
use cnaas_nms.Prelude.Exec.{Result, ok, err, device_error, attribute_error}
use cnaas_nms.Schema.{
  Db, Device, Linknet, Interface, InterfaceConfigType, DeviceType, type_eq, config_type_eq,
}
use cnaas_nms.Topology.{get_linknets}

abbrev pub has_id : ℕ → List ℕ → Bool
has_id x = any (λ y. x == y)

-- `peers.add(...)`
abbrev add_id : ℕ → List ℕ → List ℕ
add_id x xs = if has_id x xs then xs else x ∷ xs

-- The names of the device's MLAG_PEER interfaces.
abbrev pub mlag_ports : ℕ → List Interface → List String
mlag_ports id [] = []
mlag_ports id (i ∷ is) =
    let rest = mlag_ports id is in
    if i.device_id == id && config_type_eq i.configtype InterfaceConfigType.mlag_peer
    then i.name ∷ rest
    else rest

abbrev here_a : ℕ → String → Linknet → Bool
here_a id port ln = ln.device_a_id == id && str_eq ln.device_a_port port

abbrev here_b : ℕ → String → Linknet → Bool
here_b id port ln = ln.device_b_id == id && str_eq ln.device_b_port port

-- The body of the loops: the peer at the other end of a linknet on this port.
add_peer : ℕ → String → List ℕ → Linknet → List ℕ
add_peer id port peers ln =
    if here_a id port ln
    then add_id ln.device_b_id peers
    else if here_b id port ln
    then add_id ln.device_a_id peers
    else peers

-- The inner loop, over the linknets.
peers_at : ℕ → String → List ℕ → List Linknet → List ℕ
unfolding add_peer
peers_at id port peers [] = peers
peers_at id port peers (ln ∷ lns) = peers_at id port (add_peer id port peers ln) lns

-- The outer loop, over the interfaces.
peers_of : ℕ → List ℕ → List String → List Linknet → List ℕ
unfolding peers_at
peers_of id peers [] lns = peers
peers_of id peers (port ∷ ports) lns = peers_of id (peers_at id port peers lns) ports lns

-- Both types are known and differ.
abbrev pub types_differ : Device → Device → Bool
types_differ d p =
    if type_eq d.device_type DeviceType.unknown || type_eq p.device_type DeviceType.unknown
    then false
    else if type_eq d.device_type p.device_type
    then false
    else true

abbrev checked_peer : Device → Option Device → Result (Option Device)
checked_peer dev none = err attribute_error
checked_peer dev (some p) = if types_differ dev p then err device_error else ok (some p)

abbrev one_peer : Device → List Device → List ℕ → Result (Option Device)
one_peer dev devices [] = ok none
one_peer dev devices (x ∷ []) = checked_peer dev (first (λ d. d.id == x) devices)
one_peer dev devices (x ∷ y ∷ xs) = err device_error

-- `get_mlag_peer(session)`
unfoldable pub get_mlag_peer : Device → Db → Result (Option Device)
unfolding peers_of
get_mlag_peer dev db =
    one_peer dev db.devices
      (peers_of dev.id [] (mlag_ports dev.id db.interfaces) (get_linknets dev db))

-- The linknet leads from this port of the device to the device with the id `x`.
abbrev pub leads_to : ℕ → ℕ → String → Linknet → Bool
leads_to id x port ln =
    if here_a id port ln then x == ln.device_b_id else here_b id port ln && x == ln.device_a_id

has_id-add_id : (x y : ℕ) (ys : List ℕ) → has_id x (add_id y ys) ≡ (x == y || has_id x ys)
has_id-add_id x y ys = elim (Bool-cases (has_id y ys)) [
  | inl e ↦ rw e (present ys e)
  | inr e ↦ rw e refl
]
  where
    present : (zs : List ℕ) → has_id y zs ≡ true → has_id x zs ≡ (x == y || has_id x zs)
    present [] h = cc
    present (z ∷ zs) h = ground (arith, present zs)

has_id-add_peer :
    (id : ℕ) (port : String) (x : ℕ) (peers : List ℕ) (ln : Linknet)
    → has_id x (add_peer id port peers ln) ≡ (has_id x peers || leads_to id x port ln)
unfolding add_peer
has_id-add_peer id port x peers ln =
    ground (arith, has_id-add_id x ln.device_b_id peers, has_id-add_id x ln.device_a_id peers)

has_id-peers_at :
    (id : ℕ) (port : String) (x : ℕ) (peers : List ℕ) (lns : List Linknet)
    → has_id x (peers_at id port peers lns) ≡ (has_id x peers || any (leads_to id x port) lns)
unfolding peers_at
has_id-peers_at id port x peers [] = ground arith
has_id-peers_at id port x peers (ln ∷ lns) = ground (
  arith,
  has_id-peers_at id port x (add_peer id port peers ln) lns,
  has_id-add_peer id port x peers ln,
)

has_id-peers_of :
    (id x : ℕ) (peers : List ℕ) (ports : List String) (lns : List Linknet)
    → has_id x (peers_of id peers ports lns)
      ≡ (has_id x peers || any (λ port. any (leads_to id x port) lns) ports)
unfolding peers_of
has_id-peers_of id x peers [] lns = ground arith
has_id-peers_of id x peers (port ∷ ports) lns = ground (
  arith,
  has_id-peers_of id x (peers_at id port peers lns) ports lns,
  has_id-peers_at id port x peers lns,
)

-- Some MLAG_PEER interface of the device has a link to the device with the id `x`.
abbrev pub is_peer : Device → Db → ℕ → Bool
is_peer dev db x =
    any (λ port. any (leads_to dev.id x port) (get_linknets dev db))
      (mlag_ports dev.id db.interfaces)

checked_peer-some :
    (dev q p : Device)
    → checked_peer dev (some q) ≡ ok (some p)
    → (q ≡ p) × (types_differ dev q ≡ false)
checked_peer-some dev q p h = elim (Bool-cases (types_differ dev q)) [
  | inl e ↦ differ (rw e at h)
  | inr e ↦ (inj (rw e at h), e)
]
  where
    differ : {A : Type 0} → ◌≡◌ {A = Result (Option Device)} (err device_error) (ok (some p)) → A
    differ h' = cc

    inj : ◌≡◌ {A = Result (Option Device)} (ok (some q)) (ok (some p)) → q ≡ p
    inj h' = cc

only_one : (x k id : ℕ) → (id == k) ≡ true → has_id x (k ∷ []) ≡ (x == id)
only_one x k id h = ground arith

-- A device found as the MLAG peer is the only one that the MLAG_PEER interfaces lead to, and it
-- is of the same type as the device unless one of the types is unknown; and "none" is answered
-- only where they lead to no device.
pub get_mlag_peer_only :
    (dev : Device) (db : Db)
    → ((p : Device)
        → get_mlag_peer dev db ≡ ok (some p)
        → (types_differ dev p ≡ false) × ((x : ℕ) → is_peer dev db x ≡ (x == p.id)))
      × (get_mlag_peer dev db ≡ ok none → (x : ℕ) → is_peer dev db x ≡ false)
unfolding get_mlag_peer
get_mlag_peer_only dev db =
    let ids = peers_of dev.id [] (mlag_ports dev.id db.interfaces) (get_linknets dev db) in
    from_ids ids
      (λ x. has_id-peers_of dev.id x [] (mlag_ports dev.id db.interfaces) (get_linknets dev db))
  where
    from_ids :
        (ids : List ℕ)
        → ((x : ℕ) → has_id x ids ≡ is_peer dev db x)
        → ((p : Device)
            → one_peer dev db.devices ids ≡ ok (some p)
            → (types_differ dev p ≡ false) × ((x : ℕ) → is_peer dev db x ≡ (x == p.id)))
          × (one_peer dev db.devices ids ≡ ok none → (x : ℕ) → is_peer dev db x ≡ false)
    from_ids [] same = (λ p h. cc, λ h x. sym (same x))
    from_ids (i ∷ []) same =
        (λ p h. from_one i (first (λ d. d.id == i) db.devices) p refl h same, λ h. ground arith)
      where
        from_one :
            (k : ℕ) (found : Option Device) (p : Device)
            → first (λ d. d.id == k) db.devices ≡ found
            → checked_peer dev found ≡ ok (some p)
            → ((x : ℕ) → has_id x (k ∷ []) ≡ is_peer dev db x)
            → (types_differ dev p ≡ false) × ((x : ℕ) → is_peer dev db x ≡ (x == p.id))
        from_one k none p e h one = cc
        from_one k (some q) p e h one =
            let (same_row, fits) = checked_peer-some dev q p h in
            let found : (q.id == k) ≡ true = first_sound (λ d. d.id == k) db.devices q e in
            subst (λ r. (types_differ dev r ≡ false) × ((x : ℕ) → is_peer dev db x ≡ (x == r.id)))
              same_row (fits, λ x. sym (one x) ∙ only_one x k q.id found)
    from_ids (i ∷ j ∷ ids) same = (λ p h. cc, λ h. cc)
