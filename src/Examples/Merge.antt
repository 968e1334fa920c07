-- ===== src/Examples/Merge.antt =====
-- Merging dicts, tried out.
use cnaas_nms.Prelude.{ℕ, String, ◌≡◌, refl, some, List, [], ◌∷◌, lookup}
use cnaas_nms.Prelude.Exec.{err, key_error}
use cnaas_nms.MergeDict.{merge_base, merge_override, merge_dict_origin}
use cnaas_nms.MergeDict.Origin.{lookup-merge_dict_origin}

abbrev base : List (String × ℕ)
base = ("mtu", 1500) ∷ ("vlan", 10) ∷ []

abbrev override : List (String × ℕ)
override = ("vlan", 20) ∷ ("asn", 65000) ∷ []

abbrev prev : List (String × String)
prev = ("mtu", "global") ∷ ("vlan", "global") ∷ []

abbrev merged : List (String × ℕ)
merged = ("mtu", 1500) ∷ ("vlan", 20) ∷ ("asn", 65000) ∷ []

abbrev origins : List (String × String)
origins = ("mtu", "global") ∷ ("vlan", "device") ∷ ("asn", "device") ∷ []

lookup-merge_dict_origin_example :
    (lookup "vlan" merged ≡ some 20) × (lookup "vlan" origins ≡ some "device")
unfolding merge_dict_origin merge_base merge_override
lookup-merge_dict_origin_example =
    lookup-merge_dict_origin base override prev "device" merged origins "vlan" (refl, (refl, tt))
      refl

-- A key whose origin is not known stops the merge.
unknown_origin : merge_dict_origin base [] [] "device" ≡ err key_error
unfolding merge_dict_origin merge_base
unknown_origin = refl
