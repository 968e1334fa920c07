-- ===== src/Prelude/Keeps.antt =====
-- Actions that keep a predicate of the state, one rule for each way to build an action.
use mathlib.Core.Bool.{Bool, true, false}
use cnaas_nms.Prelude.Tests.{if◌then◌else◌}
use cnaas_nms.Prelude.Exec.{Exec, Result, Error, ok, err, pure, raise, modify, continue, ◌>>=◌}

-- Where `P` holds before `m`, it holds after it, whether `m` returns or raises.
pub record Keeps {S A : Type 0} (P : S → Type 0) (m : Exec S A) : Type 0 where
  pub at : (s : S) → P s → P (m s).1

module _ {S A B : Type 0} (P : S → Type 0) where
  Keeps-after :
      (r : Result A) (s : S) (k : A → Exec S B)
      → ((a : A) → Keeps P (k a))
      → P s
      → P (continue r k s).1
  Keeps-after (ok a) s k keeps p = (keeps a).at s p
  Keeps-after (err e) s k keeps p = p

  pub Keeps-bind :
      (m : Exec S A) (k : A → Exec S B) → Keeps P m → ((a : A) → Keeps P (k a)) → Keeps P (m >>= k)
  unfolding ◌>>=◌
  Keeps-bind m k hm hk = record { at = λ s p. Keeps-after (m s).0 (m s).1 k hk (hm.at s p) }

module _ {S A : Type 0} (P : S → Type 0) where
  pub Keeps-pure : (a : A) → Keeps P (pure {S = S} a)
  unfolding pure
  Keeps-pure a = record { at = λ s p. p }

  pub Keeps-raise : (e : Error) → Keeps P (raise {S = S} {A = A} e)
  unfolding raise
  Keeps-raise e = record { at = λ s p. p }

  pub Keeps-if : (b : Bool) (m n : Exec S A) → Keeps P m → Keeps P n → Keeps P (if b then m else n)
  Keeps-if true m n hm hn = hm
  Keeps-if false m n hm hn = hn

pub Keeps-modify :
    {S : Type 0} (P : S → Type 0) (g : S → S) → ((s : S) → P s → P (g s)) → Keeps P (modify g)
unfolding modify
Keeps-modify P g h = record { at = h }

pub ruleset keeps_rules = (Keeps-bind, Keeps-pure, Keeps-raise, Keeps-if, Keeps-modify)
