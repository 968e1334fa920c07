-- ===== src/Links/Interfaces/Classes.antt =====
-- The interface rows that `update_interfacedb_worker` leaves.
use cnaas_nms.Prelude.{
  is_false, ◌||◌, any, lookup, ℕ, ◌≡◌, refl, ap, ◌∙◌, String, Bool, true, false, Option, none, some,
  List, [], ◌∷◌, ◌++◌, ◌&&◌, ◌==◌, arith, select, first, update, mem, Bool-cases, inl, inr, eq_iff,
  first-select, first-append, first-append_none, first-update_self, first_sound, sym, str_eq,
  ==_refl, str_eq_refl,
}
use cnaas_nms.Prelude.Exec.{ok}
use cnaas_nms.Schema.{Db, Device, Interface, InterfaceData, InterfaceConfigType, config_type_eq}
use cnaas_nms.Topology.{LinkDict}
use cnaas_nms.Links.{LinkEnv, is_interface}
use cnaas_nms.Links.Interfaces.{
  Plan, make_plan, class_from, row, written, write_one, write_all, is_gone, not_of,
  update_interfacedb_worker,
}

abbrev pub class_at : Option Interface → Option InterfaceConfigType
class_at none = none
class_at (some i) = some i.configtype

-- The class that the rows give an interface of the device.
abbrev pub class_in : ℕ → String → List Interface → Option InterfaceConfigType
class_in id name rows = class_at (first (is_interface id name) rows)

-- The class of an interface with that neighbour as an uplink, and that one as the MLAG peer.
abbrev pub expected : Option String → Option ℕ → InterfaceConfigType
expected (some host) mlag_peer = InterfaceConfigType.access_uplink
expected none (some id) = InterfaceConfigType.mlag_peer
expected none none = InterfaceConfigType.access_auto

abbrev pub class_for : Plan → String → InterfaceConfigType
class_for plan name = expected (lookup name plan.uplinks) (lookup name plan.mlag_ifs)

class_from-expected :
    (host : Option String) (m : Option ℕ) (old : Option InterfaceData)
    → (class_from host m old).0 ≡ expected host m
class_from-expected none none old = refl
class_from-expected none (some id) old = refl
class_from-expected (some h) m old = refl

class-row :
    (plan : Plan) (id : ℕ) (name : String) (old : Option InterfaceData)
    → (row plan id name old).configtype ≡ class_for plan name
class-row plan id name old =
    class_from-expected (lookup name plan.uplinks) (lookup name plan.mlag_ifs) old

class_at-update :
    (p q : Interface → Bool) (f : Interface → Interface) (c : InterfaceConfigType)
    → ((i : Interface) → q i ≡ true → p (f i) ≡ p i)
    → ((i : Interface) → q i ≡ true → p i ≡ true → (f i).configtype ≡ c)
    → (rows : List Interface) → class_at (first p rows) ≡ some c
    → class_at (first p (update q f rows)) ≡ some c
class_at-update p q f c k l [] h = h
class_at-update p q f c k l (i ∷ rows) h =
    ground (arith, k i, l i, class_at-update p q f c k l rows)

same_name :
    (id : ℕ) (name other : String) (i : Interface)
    → is_interface id other i ≡ true
    → is_interface id name i ≡ (id == id && str_eq other name)
same_name id name other i h =
    ground (arith, eq_iff i.name other, eq_iff i.name name, eq_iff other name, ==_refl id)

one_name :
    (id : ℕ) (name other : String) (i : Interface)
    → is_interface id other i ≡ true
    → is_interface id name i ≡ true
    → other ≡ name
one_name id name other i h k =
    ground (arith, eq_iff i.name other, eq_iff i.name name, eq_iff other name)

-- A name that has its class keeps it when any row of the plan is written.
class_in-update :
    (plan : Plan) (id : ℕ) (name other : String) (rows : List Interface)
    → class_in id name rows ≡ some (class_for plan name)
    → class_in id name (update (is_interface id other) (λ j. row plan id other j.info) rows)
      ≡ some (class_for plan name)
class_in-update plan id name other =
    class_at-update (is_interface id name) (is_interface id other) (λ j. row plan id other j.info)
      (class_for plan name) (λ i h. sym (same_name id name other i h))
      (λ i h k. class-row plan id other i.info ∙ ap (class_for plan) (one_name id name other i h k))

is_interface-row :
    (plan : Plan) (id : ℕ) (name : String) (old : Option InterfaceData)
    → is_interface id name (row plan id name old) ≡ true
is_interface-row plan id name old = ground (arith, ==_refl id, str_eq_refl name)

class_in-update_self :
    (plan : Plan) (id : ℕ) (name : String) (rows : List Interface) (i : Interface)
    → first (is_interface id name) rows ≡ some i
    → class_in id name (update (is_interface id name) (λ j. row plan id name j.info) rows)
      ≡ some (class_for plan name)
class_in-update_self plan id name rows i h =
    ap class_at (
      first-update_self (is_interface id name) (λ j. row plan id name j.info) rows i h
        (is_interface-row plan id name i.info))
    ∙ ap some (class-row plan id name i.info)

class_in-append :
    (plan : Plan) (id : ℕ) (name : String) (rows : List Interface)
    → first (is_interface id name) rows ≡ none
    → class_in id name (rows ++ row plan id name none ∷ []) ≡ some (class_for plan name)
class_in-append plan id name rows h =
    rw
      (
        first-append_none (is_interface id name) rows (row plan id name none ∷ []) h,
        is_interface-row plan id name none,
      )
      (ap some (class-row plan id name none))

keep-append :
    (plan : Plan) (id : ℕ) (name : String) (rows more : List Interface)
    → (o : Option Interface) → first (is_interface id name) rows ≡ o
    → class_at o ≡ some (class_for plan name)
    → class_in id name (rows ++ more) ≡ some (class_for plan name)
keep-append plan id name rows more none e h = cc
keep-append plan id name rows more (some i) e h =
    rw (first-append (is_interface id name) rows more i e) h

written_self :
    (plan : Plan) (id : ℕ) (name : String) (rows : List Interface) (o : Option Interface)
    → first (is_interface id name) rows ≡ o
    → class_in id name (written plan id true name o rows) ≡ some (class_for plan name)
written_self plan id name rows none e = class_in-append plan id name rows e
written_self plan id name rows (some i) e = class_in-update_self plan id name rows i e

written_other :
    (plan : Plan) (id : ℕ) (name other : String) (rows : List Interface) (o : Option Interface)
    → class_in id name rows ≡ some (class_for plan name)
    → class_in id name (written plan id true other o rows) ≡ some (class_for plan name)
written_other plan id name other rows none h =
    keep-append plan id name rows (row plan id other none ∷ []) _ refl h
written_other plan id name other rows (some i) h = class_in-update plan id name other rows h

keeps-write_all :
    (plan : Plan) (id : ℕ) (name : String) (names : List String) (rows : List Interface)
    → class_in id name rows ≡ some (class_for plan name)
    → class_in id name (write_all plan id true names rows) ≡ some (class_for plan name)
unfolding write_all write_one
keeps-write_all plan id name [] rows h = h
keeps-write_all plan id name (other ∷ names) rows h =
    keeps-write_all plan id name names _ (written_other plan id name other rows _ h)

class_in-write_all :
    (plan : Plan) (id : ℕ) (name : String) (names : List String) (rows : List Interface)
    → mem name names ≡ true
    → class_in id name (write_all plan id true names rows) ≡ some (class_for plan name)
unfolding write_all write_one
class_in-write_all plan id name [] rows h = cc
class_in-write_all plan id name (other ∷ names) rows h = elim (Bool-cases (str_eq name other)) [
  | inl e ↦
      rw⁻¹ ((eq_iff name other).0 e)
        (keeps-write_all plan id name names _ (written_self plan id name rows _ refl))
  | inr e ↦ class_in-write_all plan id name names _ (ground (arith, h, e))
]

-- The rows that are removed at the end are none of the physical interfaces.
class_in-select :
    (id : ℕ) (name : String) (physical : List String) (c : InterfaceConfigType)
    → mem name physical ≡ true
    → (rows : List Interface) (o : Option Interface) → first (is_interface id name) rows ≡ o
    → class_at o ≡ some c
    → class_in id name (select (λ i. is_false (is_gone id physical i)) rows) ≡ some c
class_in-select id name physical c m rows none e h = cc
class_in-select id name physical c m rows (some i) e h =
    rw
      (first-select (is_interface id name) (λ j. is_false (is_gone id physical j)) rows i e
        (here i (first_sound (is_interface id name) rows i e)))
      h
  where
    here : (j : Interface) → is_interface id name j ≡ true → is_false (is_gone id physical j) ≡ true
    here j k = ground (arith, eq_iff j.name name, m)

others-update :
    (plan : Plan) (id : ℕ) (name : String) (rows : List Interface)
    → select (not_of id) (update (is_interface id name) (λ j. row plan id name j.info) rows)
      ≡ select (not_of id) rows
others-update plan id name [] = refl
others-update plan id name (j ∷ rows) = ground (arith, ==_refl id, others-update plan id name rows)

others-append :
    (plan : Plan) (id : ℕ) (name : String) (rows : List Interface)
    → select (not_of id) (rows ++ row plan id name none ∷ []) ≡ select (not_of id) rows
others-append plan id name [] = ground (arith, ==_refl id)
others-append plan id name (j ∷ rows) = ground (arith, others-append plan id name rows)

others-written :
    (plan : Plan) (id : ℕ) (replace : Bool) (name : String) (rows : List Interface)
    (o : Option Interface)
    → select (not_of id) (written plan id replace name o rows) ≡ select (not_of id) rows
others-written plan id replace name rows none = others-append plan id name rows
others-written plan id true name rows (some i) = others-update plan id name rows
others-written plan id false name rows (some i) = refl

others-write_all :
    (plan : Plan) (id : ℕ) (replace : Bool) (names : List String) (rows : List Interface)
    → select (not_of id) (write_all plan id replace names rows) ≡ select (not_of id) rows
unfolding write_all write_one
others-write_all plan id replace [] rows = refl
others-write_all plan id replace (name ∷ names) rows =
    others-write_all plan id replace names _ ∙ others-written plan id replace name rows _

others-select :
    (id : ℕ) (physical : List String) (rows : List Interface)
    → select (not_of id) (select (λ i. is_false (is_gone id physical i)) rows)
      ≡ select (not_of id) rows
others-select id physical [] = refl
others-select id physical (i ∷ rows) = ground (arith, others-select id physical rows)

-- What is left of the device is a physical interface, or of a protected type.
abbrev pub stays : ℕ → List String → Interface → Bool
stays id physical i =
    is_false (i.device_id == id)
    || mem i.name physical
    || config_type_eq i.configtype InterfaceConfigType.access_uplink
    || config_type_eq i.configtype InterfaceConfigType.mlag_peer

all-stays :
    (id : ℕ) (physical : List String) (rows : List Interface)
    → any
        (λ i. is_false (stays id physical i))
        (select (λ i. is_false (is_gone id physical i)) rows)
      ≡ false
all-stays id physical [] = refl
all-stays id physical (i ∷ rows) = ground (arith, all-stays id physical rows)

-- After an update with `replace` that found the physical interfaces of the device: each of them has a
-- row, of class ACCESS_UPLINK where an uplink was found on it, else MLAG_PEER where the MLAG peer was,
-- else ACCESS_AUTO; every other row of the device is of one of the first two classes; and the rows of
-- other devices are as before.
pub update_interfacedb_worker-class_in :
    (env : LinkEnv) (dev : Device) (peer : Option String) (linknets : List LinkDict) (db : Db)
    (plan : Plan)
    → make_plan env dev true peer linknets db ≡ ok plan
    → let rows = (update_interfacedb_worker env dev true false peer linknets db).1.interfaces in
      ((name : String)
        → mem name plan.physical ≡ true
        → class_in dev.id name rows ≡ some (class_for plan name))
      × (any (λ i. is_false (stays dev.id plan.physical i)) rows ≡ false)
      × (select (not_of dev.id) rows ≡ select (not_of dev.id) db.interfaces)
unfolding update_interfacedb_worker
update_interfacedb_worker-class_in env dev peer linknets db plan h = rw h (
  (λ name m.
      class_in-select dev.id name plan.physical (class_for plan name) m _ _ refl
        (class_in-write_all plan dev.id name plan.physical db.interfaces m)),
  all-stays dev.id plan.physical _,
  others-select dev.id plan.physical _
      ∙ others-write_all plan dev.id true plan.physical db.interfaces,
)
