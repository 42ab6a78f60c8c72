-- ===== src/Prelude/Errless.antt =====
-- Calls that give no error: they return or panic.
use mathlib.Core.Path.{refl}
use mathlib.Core.Logic.{◌≢◌}
use mathlib.Core.List.{List, [], ◌∷◌}
use mathlib.Core.Option.{Option, none, some}
use libtaurus.Prelude.Outcome.{Result, ok, err, panic, ◌>>=◌, unwrap, try_map, try_fold}

pub record IsErrless {ℓ κ} {E : Type ℓ} {A : Type κ} (r : Result E A) : Type (ℓ ⊔ κ) where
  pub no_error : (e : E) → r ≢ err e

module _ {ℓ κ} {E : Type ℓ} {A : Type κ} where
  pub ok-IsErrless : (a : A) → IsErrless {E = E} (ok a)
  ok-IsErrless a = record { no_error = λ e h. cc }

  pub unwrap-IsErrless : (o : Option A) → IsErrless {E = E} (unwrap o)
  unwrap-IsErrless none = record { no_error = λ e h. cc }
  unwrap-IsErrless (some a) = ok-IsErrless a

pub >>=-IsErrless {ℓ κ μ} :
    {E : Type ℓ} {A : Type κ} {B : Type μ} (m : Result E A) (f : A → Result E B)
    → IsErrless m
    → ((a : A) → IsErrless (f a))
    → IsErrless (m >>= f)
>>=-IsErrless (ok a) f p k = k a
>>=-IsErrless (err e) f p k = absurd (p.no_error e refl)
>>=-IsErrless panic f p k = record { no_error = λ e h. cc }

pub try_map-IsErrless {ℓ κ μ} :
    {E : Type ℓ} {A : Type κ} {B : Type μ} (f : A → Result E B) (xs : List A)
    → ((a : A) → IsErrless (f a))
    → IsErrless (try_map f xs)
unfolding try_map
try_map-IsErrless f [] k = ok-IsErrless []
try_map-IsErrless f (x ∷ xs) k =
    >>=-IsErrless (f x) _ (k x)
      λ y. >>=-IsErrless (try_map f xs) _ (try_map-IsErrless f xs k) λ ys. ok-IsErrless (y ∷ ys)

pub try_fold-IsErrless {ℓ κ μ} :
    {E : Type ℓ} {A : Type κ} {S : Type μ} (f : S → A → Result E S) (xs : List A) (s : S)
    → ((t : S) (a : A) → IsErrless (f t a))
    → IsErrless (try_fold f s xs)
unfolding try_fold
try_fold-IsErrless f [] s k = ok-IsErrless s
try_fold-IsErrless f (x ∷ xs) s k = >>=-IsErrless (f s x) _ (k s x) λ t. try_fold-IsErrless f xs t k
