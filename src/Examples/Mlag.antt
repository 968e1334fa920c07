-- ===== src/Examples/Mlag.antt =====
-- The MLAG peer, tried out.
use cnaas_nms.Prelude.{◌≡◌, refl, some, none, [], ◌∷◌}
use cnaas_nms.Prelude.Exec.{ok}
use cnaas_nms.Schema.{Db, InterfaceConfigType}
use cnaas_nms.Topology.{get_linknets}
use cnaas_nms.Topology.Mlag.{get_mlag_peer}
use cnaas_nms.Examples.Data.{db0, dist1, dist2}

abbrev mlag_db : Db
mlag_db = record db0 {
  interfaces =
      record {
        device_id = 2;
        name = "Ethernet1";
        configtype = InterfaceConfigType.mlag_peer;
        info = none;
      }
      ∷ [];
}

finds_peer : get_mlag_peer dist1 mlag_db ≡ ok (some dist2)
unfolding get_mlag_peer get_linknets
finds_peer = refl
