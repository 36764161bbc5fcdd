-- ===== src/ProcessGroup/Monad/Keeps.antt =====
-- Predicates that a method keeps, whether it returns or raises: one rule for each way to build a
-- method.
use torch_mojo_backend.Prelude.{Bool, true, false, if◌then◌else◌, List, [], ◌∷◌}
use torch_mojo_backend.ProcessGroup.Types.{Group, Error}
use torch_mojo_backend.ProcessGroup.Monad.{
  Result, ok, err, M, pure, raise, gets, ◌>>=◌, then_run, check, for_each, for_all,
}

pub record Keeps {A : Type 0} (P : Group → Type 0) (m : M A) : Type 0 where
  pub at : (g : Group) → P g → P (m g).1

module _ {P : Group → Type 0} where
  pub Keeps-pure : {A : Type 0} (a : A) → Keeps P (pure a)
  unfolding pure
  Keeps-pure a = record { at = λ g h. h }

  pub Keeps-raise : {A : Type 0} (e : Error) → Keeps P (raise {A = A} e)
  unfolding raise
  Keeps-raise e = record { at = λ g h. h }

  pub Keeps-gets : {A : Type 0} (f : Group → A) → Keeps P (gets f)
  unfolding gets
  Keeps-gets f = record { at = λ g h. h }

  pub Keeps-check : (b : Bool) (e : Error) → Keeps P (check b e)
  Keeps-check true e = Keeps-pure tt
  Keeps-check false e = Keeps-raise e

  pub Keeps-if :
      {A : Type 0} (b : Bool) (m n : M A) → Keeps P m → Keeps P n → Keeps P (if b then m else n)
  Keeps-if true m n km kn = km
  Keeps-if false m n km kn = kn

  Keeps-then :
      {A B : Type 0} (r : Result A) (f : A → M B)
      → ((a : A) → Keeps P (f a))
      → Keeps P (then_run r f)
  Keeps-then (ok a) f k = k a
  Keeps-then (err e) f k = record { at = λ g h. h }

  pub Keeps-bind :
      {A B : Type 0} (m : M A) (f : A → M B)
      → Keeps P m
      → ((a : A) → Keeps P (f a))
      → Keeps P (m >>= f)
  unfolding ◌>>=◌
  Keeps-bind m f km kf = record {
    at = λ g h. let (r, g') = m g in (Keeps-then r f kf).at g' (km.at g h);
  }

  pub Keeps-for_each :
      {A B : Type 0} (f : A → M B) (xs : List A)
      → ((a : A) → Keeps P (f a))
      → Keeps P (for_each f xs)
  unfolding for_each
  Keeps-for_each f [] k = Keeps-pure []
  Keeps-for_each f (x ∷ xs) k =
      Keeps-bind _ _ (k x) λ y. Keeps-bind _ _ (Keeps-for_each f xs k) λ ys. Keeps-pure _

  pub Keeps-for_all :
      {A : Type 0} (f : A → M (Unit {0})) (xs : List A)
      → ((a : A) → Keeps P (f a))
      → Keeps P (for_all f xs)
  unfolding for_all
  Keeps-for_all f [] k = Keeps-pure tt
  Keeps-for_all f (x ∷ xs) k = Keeps-bind _ _ (k x) λ _. Keeps-for_all f xs k

pub ruleset keeps_rules = (
  Keeps-pure, Keeps-raise, Keeps-gets, Keeps-check, Keeps-if, Keeps-bind, Keeps-for_each,
  Keeps-for_all,
)
