-- ===== src/Topology/Symmetry.antt =====
-- A link, read from either of its ends.
use cnaas_nms.Prelude.{
  ℕ, ◌≡◌, ◌≢◌, refl, ◌∙◌, sym, ap, String, List, [], ◌∷◌, ◌||◌, ◌&&◌, ◌==◌, if◌then◌else◌, select,
  map, arith,
}
use cnaas_nms.Schema.{Db, Device, Linknet}
use cnaas_nms.Topology.{get_links_to, get_neighbor_ifnames, ifnames}

links_to : ℕ → ℕ → List Linknet → List Linknet
links_to a b [] = []
links_to a b (ln ∷ lns) =
    let rest = links_to a b lns in
    if (ln.device_a_id == a && ln.device_b_id == b) || (ln.device_b_id == a && ln.device_a_id == b)
    then ln ∷ rest
    else rest

select-links_to :
    (a b : ℕ) (lns : List Linknet)
    → select
        (λ ln.
          (ln.device_a_id == a && ln.device_b_id == b)
          || (ln.device_b_id == a && ln.device_a_id == b))
        lns
      ≡ links_to a b lns
unfolding links_to
select-links_to a b [] = refl
select-links_to a b (ln ∷ lns) = ground (arith, select-links_to a b lns)

links_to_sym : (a b : ℕ) (lns : List Linknet) → links_to a b lns ≡ links_to b a lns
unfolding links_to
links_to_sym a b [] = refl
links_to_sym a b (ln ∷ lns) = ground (arith, links_to_sym a b lns)

abbrev pub swap : String × String → String × String
swap (x, y) = (y, x)

swap-ifnames :
    (a b : ℕ) (lns : List Linknet)
    → a ≢ b
    → map swap (ifnames a (links_to a b lns)) ≡ ifnames b (links_to a b lns)
unfolding links_to
swap-ifnames a b [] ne = refl
swap-ifnames a b (ln ∷ lns) ne = ground (arith, swap-ifnames a b lns ne)

-- Two different devices see the same links between them, and the pairs of interfaces that one of
-- them reads are those of the other with their sides exchanged, in the same order.
pub get_neighbor_ifnames-swap :
    (dev peer : Device) (db : Db)
    → dev.id ≢ peer.id
    → (get_links_to dev peer db ≡ get_links_to peer dev db)
      × (map swap (get_neighbor_ifnames dev peer db) ≡ get_neighbor_ifnames peer dev db)
unfolding get_neighbor_ifnames get_links_to
get_neighbor_ifnames-swap dev peer db ne =
    let one = select-links_to dev.id peer.id db.linknets in
    let two = select-links_to peer.id dev.id db.linknets in
    let same = links_to_sym dev.id peer.id db.linknets in
    (
      one ∙ same ∙ sym two,
      rw (one, two) (swap-ifnames dev.id peer.id db.linknets ne ∙ ap (ifnames peer.id) same),
    )
