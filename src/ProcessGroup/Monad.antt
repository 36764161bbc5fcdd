-- ===== src/ProcessGroup/Monad.antt =====
-- Methods that change the group and may raise. What was done before an exception stays done.
pub mod Keeps
use torch_mojo_backend.Prelude.{ℕ, Bool, true, false, List, [], ◌∷◌, Option, none, some}
use torch_mojo_backend.ProcessGroup.Types.{Group, Error, Event}

pub data Result (A : Type 0) : Type 0 where
  ok : A → Result A
  err : Error → Result A

abbrev pub M : Type 0 → Type 0
M A = Group → Result A × Group

unfoldable pub pure : {A : Type 0} → A → M A
pure a g = (ok a, g)

unfoldable pub raise : {A : Type 0} → Error → M A
raise e g = (err e, g)

unfoldable pub gets : {A : Type 0} → (Group → A) → M A
gets f g = (ok (f g), g)

unfoldable pub modify : (Group → Group) → M (Unit {0})
modify f g = (ok tt, f g)

abbrev pub then_run : {A B : Type 0} → Result A → (A → M B) → M B
then_run (ok a) f g = f a g
then_run (err e) f g = (err e, g)

infixl 5 ◌>>=◌ ◌>>◌
unfoldable pub ◌>>=◌ : {A B : Type 0} → M A → (A → M B) → M B
unfolding pure raise gets modify
◌>>=◌ m f g = let (r, g') = m g in then_run r f g'

abbrev pub ◌>>◌ : {A B : Type 0} → M A → M B → M B
m >> n = m >>= λ _. n

-- `raise` unless the condition holds
abbrev pub check : Bool → Error → M (Unit {0})
check true e = pure tt
check false e = raise e

-- `try: body finally: last`; an exception of `last` replaces one of `body`.
abbrev pub after_finally : {A : Type 0} → Result A → Result (Unit {0}) × Group → Result A × Group
after_finally r (ok u, g) = (r, g)
after_finally r (err e, g) = (err e, g)

unfoldable pub try_finally : {A : Type 0} → M A → M (Unit {0}) → M A
try_finally body last g = let (r, g') = body g in after_finally r (last g')

module _ {A : Type 0} {B : Type 0} where
  -- `[f(x) for x in xs]`
  unfoldable pub for_each : (A → M B) → List A → M (List B)
  for_each f [] = pure []
  for_each f (x ∷ xs) = f x >>= λ y. for_each f xs >>= λ ys. pure (y ∷ ys)

-- `for x in xs: f(x)`
unfoldable pub for_all : {A : Type 0} → (A → M (Unit {0})) → List A → M (Unit {0})
for_all f [] = pure tt
for_all f (x ∷ xs) = f x >>= λ _. for_all f xs

unfoldable pub emit : Event → M (Unit {0})
unfolding modify
emit e = modify λ g. record g { log = e ∷ g.log }
