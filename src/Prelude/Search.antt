-- ===== src/Prelude/Search.antt =====
-- Loops over rows: Python's `filter`, `in`, `any`, `first`, and the updates of a query's rows.
use Prim.Native.Nat.{suc, ◌≤◌}
use Prim.Native.String.{String}
use mathlib.Core.Path.{◌≡◌, refl, ap}
use mathlib.Core.Bool.{Bool, true, false, ◌||◌}
use mathlib.Core.Option.{Option, none, some}
use mathlib.Core.List.{List, [], ◌∷◌, ◌++◌}
use native.Mathlib.Omega.{arith}
use text.Mathlib.TextEquality.{eq_iff}
use cnaas_nms.Prelude.Tests.{str_eq, if◌then◌else◌}
use cnaas_nms.Prelude.Lists.{length}

module _ {ℓ} {A : Type ℓ} where
  -- The rows that pass a test, in order.
  abbrev pub select : (A → Bool) → List A → List A
  select p [] = []
  select p (x ∷ xs) = let rest = select p xs in if p x then x ∷ rest else rest

  -- The first row that passes a test: `query.first()`.
  abbrev pub first : (A → Bool) → List A → Option A
  first p [] = none
  first p (x ∷ xs) = let rest = first p xs in if p x then some x else rest

  abbrev pub any : (A → Bool) → List A → Bool
  any p [] = false
  any p (x ∷ xs) = p x || any p xs

  -- Update the rows that pass a test.
  abbrev pub update : (A → Bool) → (A → A) → List A → List A
  update p f [] = []
  update p f (x ∷ xs) = (if p x then f x else x) ∷ update p f xs

  pub length-update : (p : A → Bool) (f : A → A) (xs : List A) → length (update p f xs) ≡ length xs
  length-update p f [] = refl
  length-update p f (x ∷ xs) = ap suc (length-update p f xs)

  pub length-select : (p : A → Bool) (xs : List A) → length (select p xs) ≤ length xs
  length-select p [] = omega arith
  length-select p (x ∷ xs) = ground (arith, length-select p xs)

  -- What `first` finds passes the test.
  pub first_sound : (p : A → Bool) (xs : List A) (a : A) → first p xs ≡ some a → p a ≡ true
  first_sound p [] a h = cc
  first_sound p (x ∷ xs) a h = ground (arith, first_sound p xs a)

  -- The row that an update has changed is the one that is found.
  pub first-update_self :
      (p : A → Bool) (f : A → A) (xs : List A) (a : A)
      → first p xs ≡ some a
      → p (f a) ≡ true
      → first p (update p f xs) ≡ some (f a)
  first-update_self p f [] a h k = cc
  first-update_self p f (x ∷ xs) a h k = ground (arith, first-update_self p f xs a)

  pub first-select :
      (p q : A → Bool) (xs : List A) (a : A)
      → first p xs ≡ some a
      → q a ≡ true
      → first p (select q xs) ≡ some a
  first-select p q [] a h k = cc
  first-select p q (x ∷ xs) a h k = ground (arith, first-select p q xs a)

  pub first-select-none :
      (p q : A → Bool) (xs : List A) → first p xs ≡ none → first p (select q xs) ≡ none
  first-select-none p q [] h = refl
  first-select-none p q (x ∷ xs) h = ground (arith, first-select-none p q xs)

  pub first-append :
      (p : A → Bool) (xs ys : List A) (a : A) → first p xs ≡ some a → first p (xs ++ ys) ≡ some a
  first-append p [] ys a h = cc
  first-append p (x ∷ xs) ys a h = ground (arith, first-append p xs ys a)

  pub first-append_none :
      (p : A → Bool) (xs ys : List A) → first p xs ≡ none → first p (xs ++ ys) ≡ first p ys
  first-append_none p [] ys h = refl
  first-append_none p (x ∷ xs) ys h = ground (arith, first-append_none p xs ys)

-- `s in names`
abbrev pub mem : String → List String → Bool
mem s [] = false
mem s (t ∷ ts) = str_eq s t || mem s ts

module _ {ℓ} {V : Type ℓ} where
  -- A `dict` with text keys, in insertion order: `d.get(k)`.
  abbrev pub lookup : String → List (String × V) → Option V
  lookup k [] = none
  lookup k ((j, v) ∷ d) = let rest = lookup k d in if str_eq j k then some v else rest

  -- `d[k] = v`
  abbrev pub insert : String → V → List (String × V) → List (String × V)
  insert k v [] = (k, v) ∷ []
  insert k v ((j, w) ∷ d) =
      let rest = insert k v d in if str_eq j k then (k, v) ∷ d else (j, w) ∷ rest

  -- `del d[k]`, on a dict that may lack the key
  abbrev pub erase : String → List (String × V) → List (String × V)
  erase k [] = []
  erase k ((j, w) ∷ d) = let rest = erase k d in if str_eq j k then rest else (j, w) ∷ rest

  pub lookup-insert :
      (k j : String) (v : V) (d : List (String × V))
      → lookup j (insert k v d) ≡ (if str_eq k j then some v else lookup j d)
  lookup-insert k j v [] = ground arith
  lookup-insert k j v ((i, w) ∷ d) =
      ground (arith, eq_iff k j, eq_iff i k, eq_iff i j, lookup-insert k j v d)

  pub lookup-erase :
      (k j : String) (d : List (String × V))
      → lookup j (erase k d) ≡ (if str_eq k j then none else lookup j d)
  lookup-erase k j [] = ground arith
  lookup-erase k j ((i, w) ∷ d) =
      ground (arith, eq_iff k j, eq_iff i k, eq_iff i j, lookup-erase k j d)
