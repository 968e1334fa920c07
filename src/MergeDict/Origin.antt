-- ===== src/MergeDict/Origin.antt =====
-- The values and the origins of a merged dict.
use cnaas_nms.Prelude.{
  String, ◌≡◌, refl, false, Option, none, some, List, [], ◌∷◌, if◌then◌else◌, lookup, insert,
  is_some, lookup-insert, eq_iff, arith, Option-cases, inl, inr,
}
use cnaas_nms.Prelude.Exec.{Result, ok, err}
use cnaas_nms.MergeDict.{merge_base, merge_override, then_override, merge_dict_origin}

-- Each key has one entry.
abbrev pub IsDict {ℓ} : {V : Type ℓ} → List (String × V) → Type 0
IsDict [] = Unit
IsDict ((k, v) ∷ d) = (is_some (lookup k d) ≡ false) × IsDict d

abbrev pub or_else {ℓ} : {A : Type ℓ} → Option A → Option A → Option A
or_else none b = b
or_else (some a) b = some a

module _ {V : Type 0} where
  abbrev pub base_value : List (String × V) → List (String × V) → String → Option V → Option V
  base_value override base j rest =
      if is_some (lookup j base) then or_else (lookup j override) (lookup j base) else rest

  abbrev pub base_origin :
      List (String × V)
      → List (String × V)
      → List (String × String)
      → String
      → String
      → Option String
      → Option String
  base_origin override base prev name j rest =
      if is_some (lookup j base)
      then (if is_some (lookup j override) then some name else lookup j prev)
      else rest

  merged_base :
      (override : List (String × V)) (prev : List (String × String)) (name : String)
      (values : List (String × V)) (metadata : List (String × String)) (base : List (String × V))
      (values' : List (String × V)) (metadata' : List (String × String)) (j : String)
      → IsDict base
      → merge_base override prev name values metadata base ≡ ok (values', metadata')
      → (lookup j values' ≡ base_value override base j (lookup j values))
        × (lookup j metadata' ≡ base_origin override base prev name j (lookup j metadata))
  unfolding merge_base
  merged_base override prev name values metadata [] values' metadata' j u h = ground arith
  merged_base override prev name values metadata ((k, v) ∷ base) values' metadata' j u h =
      elim (Option-cases (lookup k override)) [
        | inr (w, e) ↦
            let rest =
              merged_base override prev name (insert k w values) (insert k name metadata) base
                values' metadata' j u.1 (ground (arith, e, h)) in
            (
              ground (arith, e, rest, eq_iff k j, lookup-insert k j w values, u),
              ground (arith, e, rest, eq_iff k j, lookup-insert k j name metadata, u),
            )
        | inl e ↦ elim (Option-cases (lookup k prev)) [
          | inl gone ↦ ground (arith, e, gone, h)
          | inr (o, known) ↦
              let rest =
                merged_base override prev name (insert k v values) (insert k o metadata) base
                  values' metadata' j u.1 (ground (arith, e, known, h)) in
              (
                ground (arith, e, rest, eq_iff k j, lookup-insert k j v values, u),
                ground (arith, e, known, rest, eq_iff k j, lookup-insert k j o metadata, u),
              )
        ]
      ]

  merged_override :
      (name : String) (values : List (String × V)) (metadata : List (String × String))
      (override : List (String × V)) (j : String)
      → let (values', metadata') = merge_override name values metadata override in
        (lookup j values' ≡ or_else (lookup j values) (lookup j override))
        × (lookup j metadata' ≡ (
            if is_some (lookup j values)
            then lookup j metadata
            else if is_some (lookup j override)
            then some name
            else lookup j metadata))
  unfolding merge_override
  merged_override name values metadata [] j = (
    elim (Option-cases (lookup j values)) [
      | inl e ↦ ground (arith, e)
      | inr (v, e) ↦ ground (arith, e)
    ],
    ground arith,
  )
  merged_override name values metadata ((k, v) ∷ override) j =
      elim (Option-cases (lookup k values)) [
        | inr (w, e) ↦
            let rest = merged_override name values metadata override j in
            (ground (arith, e, rest, eq_iff k j), ground (arith, e, rest, eq_iff k j))
        | inl e ↦
            let rest =
              merged_override name (insert k v values) (insert k name metadata) override j in
            (
              ground (arith, e, rest, eq_iff k j, lookup-insert k j v values),
              ground (
                arith,
                e,
                rest,
                eq_iff k j,
                lookup-insert k j v values,
                lookup-insert k j name metadata,
              ),
            )
      ]

  -- Where the merge into a base with one entry for each key succeeds, each key has the overriding
  -- value if there is one and the value of the base otherwise, and its origin is the name of the
  -- override, or else the origin that was known before.
  pub lookup-merge_dict_origin :
      (base override : List (String × V)) (prev : List (String × String)) (name : String)
      (values : List (String × V)) (metadata : List (String × String)) (j : String)
      → IsDict base
      → merge_dict_origin base override prev name ≡ ok (values, metadata)
      → (lookup j values ≡ or_else (lookup j override) (lookup j base))
        × (lookup j metadata ≡ (
            if is_some (lookup j override)
            then some name
            else if is_some (lookup j base)
            then lookup j prev
            else none))
  unfolding merge_dict_origin
  lookup-merge_dict_origin base override prev name values metadata j u h =
      from_base (merge_base override prev name [] [] base) refl h
    where
      from_base :
          (r : Result (List (String × V) × List (String × String)))
          → merge_base override prev name [] [] base ≡ r
          → then_override name override r ≡ ok (values, metadata)
          → (lookup j values ≡ or_else (lookup j override) (lookup j base))
            × (lookup j metadata ≡ (
                if is_some (lookup j override)
                then some name
                else if is_some (lookup j base)
                then lookup j prev
                else none))
      from_base (err e) is h' = cc
      from_base (ok (v, m)) is h' =
          let one = merged_base override prev name [] [] base v m j u is in
          let two = merged_override name v m override j in
          (ground (arith, one, two, h'), ground (arith, one, two, h'))
