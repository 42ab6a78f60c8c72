-- ===== src/Prelude/Outcome.antt =====
-- A call of the program: it returns a value, returns an error of type `E`, or panics (an `unwrap`
-- of nothing, a missing map index, or a recursion that never ends and overflows the stack).
use mathlib.Core.Path.{◌≡◌, refl, ap, sym, ◌∙◌}
use native.Mathlib.Omega.{arith}
use mathlib.Core.List.{List, [], ◌∷◌}
use mathlib.Core.Option.{Option, none, some}
use mathlib.Core.Bool.{Bool, true, false}
use libtaurus.Prelude.Tests.{Key, ◌≟◌, if◌then◌else◌}
use libtaurus.Prelude.Lists.{contains}

pub data Result {ℓ κ} (E : Type ℓ) (A : Type κ) : Type (ℓ ⊔ κ) where
  ok : A → Result E A
  err : E → Result E A
  panic : Result E A

-- The `?` operator.
infixl 5 ◌>>=◌ ◌>>◌
abbrev pub ◌>>=◌ {ℓ κ μ} :
    {E : Type ℓ} {A : Type κ} {B : Type μ} → Result E A → (A → Result E B) → Result E B
panic >>= next = panic
err e >>= next = err e
ok a >>= next = next a

abbrev pub ◌>>◌ {ℓ κ} : {E : Type ℓ} {B : Type κ} → Result E (Unit {0}) → Result E B → Result E B
m >> k = m >>= λ _. k

module _ {ℓ κ} {E : Type ℓ} {A : Type κ} where
  -- `ok_or(e)?`
  abbrev pub ok_or : Option A → E → Result E A
  ok_or none e = err e
  ok_or (some a) e = ok a

  -- `unwrap()` and `expect(…)` of an option, and a map's index.
  abbrev pub unwrap : Option A → Result E A
  unwrap none = panic
  unwrap (some a) = ok a

  -- `Result::ok`
  abbrev pub ok? : Result E A → Option A
  ok? (ok a) = some a
  ok? (err e) = none
  ok? panic = none

-- `map_err(E::from)`
abbrev pub map_err {ℓ κ μ} :
    {E : Type ℓ} {F : Type κ} {A : Type μ} → (E → F) → Result E A → Result F A
map_err f (ok a) = ok a
map_err f (err e) = err (f e)
map_err f panic = panic

-- `iter().map(f).try_collect()?`: in order, up to the first failure.
unfoldable pub try_map {ℓ κ μ} :
    {E : Type ℓ} {A : Type κ} {B : Type μ} → (A → Result E B) → List A → Result E (List B)
try_map f [] = ok []
try_map f (x ∷ xs) = do y ← f x; ys ← try_map f xs; ok (y ∷ ys)

-- A `for` loop over a state, with calls that may fail.
unfoldable pub try_fold {ℓ κ μ} :
    {E : Type ℓ} {A : Type κ} {S : Type μ} → (S → A → Result E S) → S → List A → Result E S
try_fold f s [] = ok s
try_fold f s (x ∷ xs) = do s' ← f s x; try_fold f s' xs

module _ {ℓ κ μ} {E : Type ℓ} {A : Type κ} {B : Type μ} where
  -- A chain that returns a value did so at each step.
  pub >>=-eq-ok :
      (call : Result E A) (next : A → Result E B) {y : B}
      → (call >>= next) ≡ ok y
      → (x : A) × (call ≡ ok x) × (next x ≡ ok y)
  >>=-eq-ok panic next returned = cc
  >>=-eq-ok (ok x) next returned = (x, refl, returned)
  >>=-eq-ok (err e) next returned = cc

pub ok-injective {ℓ κ} :
    {E : Type ℓ} {A : Type κ} {a b : A} → ◌≡◌ {A = Result E A} (ok a) (ok b) → a ≡ b
ok-injective h = cc

pub err-injective {ℓ κ} :
    {E : Type ℓ} {A : Type κ} {e f : E} → ◌≡◌ {A = Result E A} (err e) (err f) → e ≡ f
err-injective h = cc

-- A guard that let a call pass.
pub if-eq-ok {ℓ κ} :
    {E : Type ℓ} {A : Type κ} (b : Bool) (e : E) (r : Result E A) {a : A}
    → (if b then err e else r) ≡ ok a
    → (b ≡ false) × (r ≡ ok a)
if-eq-ok true e r h = cc
if-eq-ok false e r h = (refl, h)

pub map_err-eq-ok {ℓ κ μ} :
    {E : Type ℓ} {F : Type κ} {A : Type μ} (f : E → F) (r : Result E A) {a : A}
    → map_err f r ≡ ok a
    → r ≡ ok a
map_err-eq-ok f (ok b) h = ap ok (ok-injective h)
map_err-eq-ok f (err e) h = cc
map_err-eq-ok f panic h = cc

pub unwrap-eq-ok {ℓ κ} :
    {E : Type ℓ} {A : Type κ} (o : Option A) {a : A} → unwrap {E = E} o ≡ ok a → o ≡ some a
unwrap-eq-ok none h = cc
unwrap-eq-ok (some a) h = cc

pub ok_or-eq-ok {ℓ κ} :
    {E : Type ℓ} {A : Type κ} (o : Option A) (e : E) {a : A} → ok_or o e ≡ ok a → o ≡ some a
ok_or-eq-ok none e h = cc
ok_or-eq-ok (some a) e h = cc

-- A relation that every round of a loop keeps, the loop keeps.
pub try_fold_rel {ℓ κ μ ν} :
    {E : Type ℓ} {A : Type κ} {S : Type μ} (R : S → S → Type ν) (f : S → A → Result E S)
    → ((s : S) → R s s)
    → ((s t u : S) → R s t → R t u → R s u)
    → ((s : S) (a : A) (t : S) → f s a ≡ ok t → R s t)
    → (xs : List A) (s t : S) → try_fold f s xs ≡ ok t
    → R s t
unfolding try_fold
try_fold_rel R f rfl trans step [] s t h = rw (← ok-injective h) (rfl s)
try_fold_rel R f rfl trans step (x ∷ xs) s t h =
    let (u, e, rest) = >>=-eq-ok (f s x) (λ s'. try_fold f s' xs) h in
    trans s u t (step s x u e) (try_fold_rel R f rfl trans step xs u t rest)

-- The results of a mapped list, one by one.
pub try_map-cons {ℓ κ μ} :
    {E : Type ℓ} {A : Type κ} {B : Type μ} (f : A → Result E B) (x : A) (xs : List A) (zs : List B)
    → try_map f (x ∷ xs) ≡ ok zs
    → (y : B) × (ys : List B) × (f x ≡ ok y) × (try_map f xs ≡ ok ys) × (y ∷ ys ≡ zs)
unfolding try_map
try_map-cons f x xs zs h =
    let (y, e, h₁) = >>=-eq-ok (f x) _ h in
    let (ys, e₁, h₂) = >>=-eq-ok (try_map f xs) _ h₁ in (y, ys, e, e₁, ok-injective h₂)

-- Each element has a result, and each result comes from an element.
module _ {ℓ} {E A B : Type ℓ} ⦃a : Key A⦄ ⦃b : Key B⦄ (f : A → Result E B) where
  pub try_map-mem :
      (xs : List A) (ys : List B) (x : A)
      → try_map f xs ≡ ok ys
      → contains xs x ≡ true
      → (y : B) × (f x ≡ ok y) × (contains ys y ≡ true)
  try_map-mem [] ys x h c = cc
  try_map-mem (z ∷ xs) ys x h c =
      let (y, ys', e, e', e″) = try_map-cons f z xs ys h in
      elim (z ≟ x) [
        | yes p ↦ (y, ap f (sym p) ∙ e, rw (← e″) (ground arith))
        | no q ↦
            let (w, k, m) = try_map-mem xs ys' x e' (ground arith) in
            (w, k, rw (← e″) (ground arith))
      ]

  pub mem-try_map :
      (xs : List A) (ys : List B) (y : B)
      → try_map f xs ≡ ok ys
      → contains ys y ≡ true
      → (x : A) × (f x ≡ ok y) × (contains xs x ≡ true)
  unfolding try_map
  mem-try_map [] ys y h c = absurd (empty (ok-injective h) c)
    where
      empty : [] ≡ ys → contains ys y ≡ true → ⊥
      empty e k = ground arith
  mem-try_map (z ∷ xs) ys y h c =
      let (w, ys', e, e', e″) = try_map-cons f z xs ys h in
      elim (w ≟ y) [
        | yes p ↦ (z, e ∙ ap ok p, ground arith)
        | no q ↦ let (x, k, m) = mem-try_map xs ys' y e' (ground arith) in (x, k, ground arith)
      ]
