-- ===== src/Topology/Dedup.antt =====
-- The links that deduplication returns.
use cnaas_nms.Prelude.{
  ◌≡◌, refl, String, Bool, true, false, List, [], ◌∷◌, ◌++◌, ◌||◌, mem, any, str_eq, arith, eq_iff,
  Bool-cases, inl, inr, str_eq_refl,
}
use cnaas_nms.Topology.{
  LinkDict, linknet_str_a, linknet_str_b, deduplicate_from, deduplicate_linknet_dicts,
}

-- The name is that of the link, read from one of its ends.
abbrev pub is_name_of : String → LinkDict → Bool
is_name_of name l = str_eq name (linknet_str_a l) || str_eq name (linknet_str_b l)

-- Some link of the list has a name of `l`.
abbrev pub meets : LinkDict → List LinkDict → Bool
meets l ls = any (is_name_of (linknet_str_a l)) ls || any (is_name_of (linknet_str_b l)) ls

-- No link shares a name with a later one.
abbrev pub IsDistinct : List LinkDict → Type 0
IsDistinct [] = Unit
IsDistinct (l ∷ ls) = (meets l ls ≡ false) × IsDistinct ls

fresh :
    (name : String) (populated : List String) (ls : List LinkDict)
    → mem name populated ≡ true
    → any (is_name_of name) (deduplicate_from populated ls) ≡ false
unfolding deduplicate_from
fresh name populated [] h = refl
fresh name populated (l ∷ ls) h = ground (
  arith,
  eq_iff name (linknet_str_a l),
  eq_iff name (linknet_str_b l),
  fresh name populated ls,
  fresh name (linknet_str_a l ∷ linknet_str_b l ∷ populated) ls,
)

deduplicate_from-IsDistinct :
    (populated : List String) (ls : List LinkDict) → IsDistinct (deduplicate_from populated ls)
unfolding deduplicate_from
deduplicate_from-IsDistinct populated [] = tt
deduplicate_from-IsDistinct populated (l ∷ ls) =
    elim (Bool-cases (mem (linknet_str_a l) populated || mem (linknet_str_b l) populated)) [
      | inl e ↦ rw e (deduplicate_from-IsDistinct populated ls)
      | inr e ↦
          let more = linknet_str_a l ∷ linknet_str_b l ∷ populated in
          rw e (
            ground (
              arith,
              str_eq_refl (linknet_str_a l),
              str_eq_refl (linknet_str_b l),
              fresh (linknet_str_a l) more ls,
              fresh (linknet_str_b l) more ls,
            ),
            deduplicate_from-IsDistinct more ls,
          )
    ]

covered :
    (populated : List String) (before : List LinkDict) (l : LinkDict) (after : List LinkDict)
    → (mem (linknet_str_a l) populated
        || mem (linknet_str_b l) populated
        || meets l (deduplicate_from populated (before ++ l ∷ after)))
      ≡ true
unfolding deduplicate_from
covered populated [] l after = ground (arith, str_eq_refl (linknet_str_a l))
covered populated (x ∷ before) l after = ground (
  arith,
  covered populated before l after,
  covered (linknet_str_a x ∷ linknet_str_b x ∷ populated) before l after,
)

-- Deduplication returns links of which no two have a name in common, and every link that was given
-- shares a name with one that is returned.
pub deduplicate_linknet_dicts-IsDistinct :
    (before : List LinkDict) (l : LinkDict) (after : List LinkDict)
    → IsDistinct (deduplicate_linknet_dicts (before ++ l ∷ after))
      × (meets l (deduplicate_linknet_dicts (before ++ l ∷ after)) ≡ true)
unfolding deduplicate_linknet_dicts
deduplicate_linknet_dicts-IsDistinct before l after =
    (deduplicate_from-IsDistinct [] (before ++ l ∷ after), covered [] before l after)
