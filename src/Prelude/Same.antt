-- ===== src/Prelude/Same.antt =====
-- Actions that leave a part of the state alone, one rule for each way to build an action; and what
-- an action that returned has gone through.
use mathlib.Core.Path.{◌≡◌, refl, ◌∙◌}
use mathlib.Core.Bool.{Bool, true, false}
use cnaas_nms.Prelude.Tests.{if◌then◌else◌}
use cnaas_nms.Prelude.Exec.{
  Exec, Result, Error, ok, err, pure, raise, lift, gets, query, handle, handled, modify, continue,
  ◌>>=◌,
}

-- The part of the state that `f` shows is the same after `m`, whether it returns or raises.
pub record Same {S A B : Type 0} (f : S → B) (m : Exec S A) : Type 0 where
  pub at : (s : S) → f (m s).1 ≡ f s

module _ {S A B C : Type 0} (f : S → C) where
  Same-after :
      (r : Result A) (s' : S) (k : A → Exec S B)
      → ((a : A) → Same f (k a))
      → f (continue r k s').1 ≡ f s'
  Same-after (ok a) s' k keeps = (keeps a).at s'
  Same-after (err e) s' k keeps = refl

  pub Same-bind :
      (m : Exec S A) (k : A → Exec S B) → Same f m → ((a : A) → Same f (k a)) → Same f (m >>= k)
  unfolding ◌>>=◌
  Same-bind m k hm hk = record { at = λ s. Same-after (m s).0 (m s).1 k hk ∙ hm.at s }

module _ {S A B : Type 0} (f : S → B) where
  pub Same-pure : (a : A) → Same f (pure {S = S} a)
  unfolding pure
  Same-pure a = record { at = λ s. refl }

  pub Same-raise : (e : Error) → Same f (raise {S = S} {A = A} e)
  unfolding raise
  Same-raise e = record { at = λ s. refl }

  pub Same-if :
      (b : Bool) (m n : Exec S A)
      → (b ≡ true → Same f m)
      → (b ≡ false → Same f n)
      → Same f (if b then m else n)
  Same-if true m n hm hn = hm refl
  Same-if false m n hm hn = hn refl

module _ {S A B : Type 0} (f : S → B) where
  pub Same-query : (g : S → Result A) → Same f (query g)
  unfolding query
  Same-query g = record { at = λ s. refl }

  pub Same-gets : (g : S → A) → Same f (gets g)
  unfolding gets
  Same-gets g = record { at = λ s. refl }

  pub Same-lift : (r : Result A) → Same f (lift {S = S} r)
  unfolding lift
  Same-lift r = record { at = λ s. refl }

  Same-handled :
      (r : Result A) (s s' : S) (h : Error → Exec S A)
      → ((e : Error) → Same f (h e))
      → f s' ≡ f s
      → f (handled r h s').1 ≡ f s
  Same-handled (ok a) s s' h keeps same = same
  Same-handled (err e) s s' h keeps same = (keeps e).at s' ∙ same

  pub Same-handle :
      (m : Exec S A) (h : Error → Exec S A)
      → Same f m
      → ((e : Error) → Same f (h e))
      → Same f (handle m h)
  Same-handle m h hm hh = record { at = λ s. Same-handled (m s).0 s (m s).1 h hh (hm.at s) }

pub Same-modify :
    {S B : Type 0} (f : S → B) (g : S → S) → ((s : S) → f (g s) ≡ f s) → Same f (modify g)
unfolding modify
Same-modify f g h = record { at = h }

pub ruleset same_rules = (Same-bind, Same-pure, Same-raise, Same-if, Same-modify)

module _ {S A B : Type 0} where
  -- A bind that returned: its first part returned, and the rest did from there.
  pub >>=-returned :
      (m : Exec S A) (k : A → Exec S B) (s : S) (b : B)
      → ((m >>= k) s).0 ≡ ok b
      → (a : A) × ((m s).0 ≡ ok a) × ((k a (m s).1).0 ≡ ok b) × (((m >>= k) s).1 ≡ (k a (m s).1).1)
  unfolding ◌>>=◌
  >>=-returned m k s b h = returned_by (m s).0 (m s).1 k b h
    where
      returned_by :
          (r : Result A) (s' : S) (k' : A → Exec S B) (b' : B)
          → (continue r k' s').0 ≡ ok b'
          → (a : A) × (r ≡ ok a) × ((k' a s').0 ≡ ok b') × ((continue r k' s').1 ≡ (k' a s').1)
      returned_by (ok a) s' k' b' h' = (a, refl, h', refl)
      returned_by (err e) s' k' b' h' = cc
