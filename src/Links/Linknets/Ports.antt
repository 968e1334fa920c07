-- ===== src/Links/Linknets/Ports.antt =====
-- Lists of linknets without a shared port: adding and removing links.
use cnaas_nms.Prelude.{
  is_false, ℕ, ◌≡◌, refl, ◌∙◌, inl, inr, String, Bool, true, false, List, [], ◌∷◌, ◌++◌, ◌||◌, ◌&&◌,
  ◌==◌, if◌then◌else◌, arith, select, any, eq_iff, str_eq, Bool-cases,
}
use cnaas_nms.Schema.{Linknet}
use cnaas_nms.Links.Linknets.{touches}

-- The two links share a port of a device.
abbrev pub shares : Linknet → Linknet → Bool
shares l m = touches l.device_a_id l.device_a_port l.device_b_id l.device_b_port m

abbrev pub IsWired : List Linknet → Type 0
IsWired [] = Unit
IsWired (l ∷ ls) = (any (shares l) ls ≡ false) × IsWired ls

str_eq_comm : (s t : String) → str_eq s t ≡ str_eq t s
str_eq_comm s t = ground (arith, eq_iff s t, eq_iff t s)

end_comm :
    (id id' : ℕ) (port port' : String)
    → (id == id' && str_eq port port') ≡ (id' == id && str_eq port' port)
end_comm id id' port port' = rw (str_eq_comm port port') (ground arith)

middle : (p q r s : Bool) → ((p || q) || (r || s)) ≡ ((p || r) || (q || s))
middle true q r s = refl
middle false true true s = refl
middle false true false s = refl
middle false false r s = refl

shares_sym : (l m : Linknet) → shares l m ≡ shares m l
shares_sym l m =
    rw
      (
        end_comm m.device_a_id l.device_a_id m.device_a_port l.device_a_port,
        end_comm m.device_b_id l.device_a_id m.device_b_port l.device_a_port,
        end_comm m.device_a_id l.device_b_id m.device_a_port l.device_b_port,
        end_comm m.device_b_id l.device_b_id m.device_b_port l.device_b_port,
      )
      (middle (l.device_a_id == m.device_a_id && str_eq l.device_a_port m.device_a_port)
        (l.device_a_id == m.device_b_id && str_eq l.device_a_port m.device_b_port)
        (l.device_b_id == m.device_a_id && str_eq l.device_b_port m.device_a_port)
        (l.device_b_id == m.device_b_id && str_eq l.device_b_port m.device_b_port))

pub any-append :
    (p : Linknet → Bool) (ls : List Linknet) (m : Linknet)
    → any p ls ≡ false
    → p m ≡ false
    → any p (ls ++ m ∷ []) ≡ false
any-append p [] m h k = ground (arith, k)
any-append p (l ∷ ls) m h k = ground (arith, any-append p ls m)

pub IsWired-append :
    (ls : List Linknet) (m : Linknet)
    → IsWired ls
    → any (shares m) ls ≡ false
    → IsWired (ls ++ m ∷ [])
IsWired-append [] m w h = (refl, tt)
IsWired-append (l ∷ ls) m w h = (
  any-append (shares l) ls m w.0 (shares_sym l m ∙ here),
  IsWired-append ls m w.1 (ground (arith, h)),
)
  where
    here : shares m l ≡ false
    here = ground (arith, h)

pub any-select :
    (p q : Linknet → Bool) (ls : List Linknet) → any p ls ≡ false → any p (select q ls) ≡ false
any-select p q [] h = refl
any-select p q (l ∷ ls) h = ground (arith, any-select p q ls)

IsWired-if :
    (b : Bool) (l : Linknet) (ls : List Linknet)
    → any (shares l) ls ≡ false
    → IsWired ls
    → IsWired (if b then l ∷ ls else ls)
IsWired-if true l ls h w = (h, w)
IsWired-if false l ls h w = w

pub IsWired-select : (q : Linknet → Bool) (ls : List Linknet) → IsWired ls → IsWired (select q ls)
IsWired-select q [] w = tt
IsWired-select q (l ∷ ls) w =
    IsWired-if (q l) l (select q ls) (any-select (shares l) q ls w.0) (IsWired-select q ls w.1)

pub any-none : (p : Linknet → Bool) (ls : List Linknet) → select p ls ≡ [] → any p ls ≡ false
any-none p [] h = refl
any-none p (l ∷ ls) h = ground (arith, any-none p ls)

-- Where one row passes the test, none does after its deletion.
pub any-one :
    (p : Linknet → Bool) (ls : List Linknet) (x : Linknet)
    → select p ls ≡ x ∷ []
    → any p (select (λ l. is_false (l.id == x.id)) ls) ≡ false
any-one p [] x h = cc
any-one p (l ∷ ls) x h = elim (Bool-cases (p l)) [
  | inl e ↦ ground (arith, any-select p (λ l. is_false (l.id == x.id)) ls, any-none p ls)
  | inr e ↦ ground (arith, any-one p ls x)
]
