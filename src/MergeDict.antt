-- ===== src/MergeDict.antt =====
-- src/cnaas_nms/tools/mergedict.py: merging two dicts, with the origin of each value.
pub mod Origin
use cnaas_nms.Prelude.{
  String, Bool, true, false, Option, none, some, List, [], ◌∷◌, if◌then◌else◌, lookup, insert,
  is_some,
}
use cnaas_nms.Prelude.Exec.{Error, Result, ok, err, key_error}

module _ {V : Type 0} where
  -- The loop over `base.items()`, with what `data` (here `values`) and `metadata` hold so far.
  unfoldable pub merge_base :
      (override : List (String × V)) (prev : List (String × String)) (override_name : String)
      → List (String × V)
      → List (String × String)
      → List (String × V)
      → Result (List (String × V) × List (String × String))
  merge_base override prev override_name values metadata [] = ok (values, metadata)
  merge_base override prev override_name values metadata ((base_key, base_value) ∷ base) =
      elim (lookup base_key override) [
        | some value ↦
            merge_base override prev override_name (insert base_key value values)
              (insert base_key override_name metadata) base
        | none ↦ elim (lookup base_key prev) [
          | none ↦ err key_error
          | some origin ↦
              merge_base override prev override_name (insert base_key base_value values)
                (insert base_key origin metadata) base
        ]
      ]

  -- The loop over `override.items()`.
  unfoldable pub merge_override :
      (override_name : String)
      → List (String × V)
      → List (String × String)
      → List (String × V)
      → List (String × V) × List (String × String)
  merge_override override_name values metadata [] = (values, metadata)
  merge_override override_name values metadata ((key, value) ∷ override) =
      let skip = merge_override override_name values metadata override in
      let add =
        merge_override override_name (insert key value values) (insert key override_name metadata)
          override in
      if is_some (lookup key values) then skip else add

  abbrev pub then_override :
      String
      → List (String × V)
      → Result (List (String × V) × List (String × String))
      → Result (List (String × V) × List (String × String))
  then_override override_name override (err e) = err e
  then_override override_name override (ok (values, metadata)) =
      ok (merge_override override_name values metadata override)

  -- `merge_dict_origin(base, override, prev, override_name)`
  unfoldable pub merge_dict_origin :
      (base override : List (String × V)) (prev : List (String × String)) (override_name : String)
      → Result (List (String × V) × List (String × String))
  merge_dict_origin base override prev override_name =
      then_override override_name override (merge_base override prev override_name [] [] base)
