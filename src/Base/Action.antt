-- ===== src/Base/Action.antt =====
-- An action changes a state and returns a value or an error. What it did to the state before it
-- failed stays done, as in Go, where an error is a value beside the effects.
use Prim.Native.String.{String}
use mathlib.Core.Path.{◌≡◌, refl}
use mathlib.Core.Bool.{Bool, true, false}
use mathlib.Core.Logic.{◌⊎◌, inl, inr}
use native.Mathlib.Omega.{arith}

-- An `error` is its message.
abbrev pub Error : Type 0
Error = String

pub data Result (A : Type 0) : Type 0 where
  ok : A → Result A
  err : Error → Result A

abbrev pub Action : Type 0 → Type 0 → Type 0
Action S A = S → S × Result A

-- An action for its effect: it returns `error`.
abbrev pub Effect : Type 0 → Type 0
Effect S = Action S (Unit {0})

-- An action that cannot fail.
abbrev pub Query : Type 0 → Type 0 → Type 0
Query S A = S → S × A

abbrev pub after : {S A B : Type 0} → S × Result A → (A → Action S B) → S × Result B
after (s, ok a) f = f a s
after (s, err e) f = (s, err e)

infixl 5 ◌>>=◌ ◌>>◌
abbrev pub ◌>>=◌ : {S A B : Type 0} → Action S A → (A → Action S B) → Action S B
◌>>=◌ m f s = after (m s) f

abbrev pub ◌>>◌ : {S B : Type 0} → Effect S → Action S B → Action S B
m >> k = m >>= λ _. k

abbrev pub pure : {S A : Type 0} → A → Action S A
pure a s = (s, ok a)

-- `return nil`
abbrev pub done : {S : Type 0} → Effect S
done s = (s, ok tt)

abbrev pub fail : {S A : Type 0} → Error → Action S A
fail e s = (s, err e)

-- `if !test { return e }`
abbrev pub require : {S : Type 0} → Bool → Error → Effect S
require true e s = (s, ok tt)
require false e s = (s, err e)

-- `fmt.Errorf("...%w", err)`: what the wrapping adds to an error's message.
abbrev pub map_err : {A : Type 0} → (Error → Error) → Result A → Result A
map_err f (ok a) = ok a
map_err f (err e) = err (f e)

abbrev pub rewrap : {S A : Type 0} → (Error → Error) → S × Result A → S × Result A
rewrap f (s, r) = (s, map_err f r)

abbrev pub wrap : {S A : Type 0} → (Error → Error) → Action S A → Action S A
wrap f m s = rewrap f (m s)

-- `_ = m()`, and a failure that is only logged.
abbrev pub attempt : {S A : Type 0} → Action S A → Effect S
attempt m s = ((m s).0, ok tt)

-- `if err := m(); err != nil { clean(); return err }`, and `defer` of an action that cannot fail.
abbrev pub or_clean : {S A : Type 0} → Effect S → Action S A → Action S A
or_clean clean m s = elim (m s).1 [ ok a ↦ ((m s).0, ok a) | err e ↦ ((clean (m s).0).0, err e) ]

abbrev pub finally : {S A : Type 0} → Effect S → Action S A → Action S A
finally last m s = ((last (m s).0).0, (m s).1)

-- An action that hands a failure over as a value, for code that inspects it.
abbrev pub catch : {S A : Type 0} → Action S A → Action S (Result A)
catch m s = ((m s).0, ok (m s).1)

abbrev pub get : {S : Type 0} → Action S S
get s = (s, ok s)

abbrev pub modify : {S : Type 0} → (S → S) → Effect S
modify f s = (f s, ok tt)

-- Inversion of a sequence that succeeded: its first part did, and the rest ran from there.
pub after-eq-ok :
    {S A B : Type 0} (p : S × Result A) (f : A → Action S B) {b : B}
    → (after p f).1 ≡ ok b
    → (a : A) × (p.1 ≡ ok a) × (after p f ≡ f a p.0)
after-eq-ok (s, ok a) f h = (a, refl, refl)
after-eq-ok (s, err e) f h = cc

pub after_of_ok :
    {S A B : Type 0} (p : S × Result A) (f : A → Action S B) {a : A}
    → p.1 ≡ ok a
    → after p f ≡ f a p.0
after_of_ok (s, ok a) f h = ground arith
after_of_ok (s, err e) f h = cc

pub after_of_err :
    {S A B : Type 0} (p : S × Result A) (f : A → Action S B) {e : Error}
    → p.1 ≡ err e
    → after p f ≡ (p.0, err e)
after_of_err (s, ok a) f h = cc
after_of_err (s, err e) f h = ground arith

pub rewrap-eq-ok :
    {S A : Type 0} (w : Error → Error) (p : S × Result A) {a : A}
    → (rewrap w p).1 ≡ ok a
    → (p.1 ≡ ok a) × (rewrap w p ≡ p)
rewrap-eq-ok w (s, ok a) h = (h, refl)
rewrap-eq-ok w (s, err e) h = cc

pub Result-cases :
    {A : Type 0} (r : Result A) → ((a : A) × (r ≡ ok a)) ⊎ ((e : Error) × (r ≡ err e))
Result-cases (ok a) = inl (a, refl)
Result-cases (err e) = inr (e, refl)

pub ok-injective : {A : Type 0} {a b : A} → ok a ≡ ok b → a ≡ b
ok-injective h = cc

pub after_assoc :
    {S A B C : Type 0} (p : S × Result A) (f : A → Action S B) (g : B → Action S C)
    → after (after p f) g ≡ after p (λ a s. after (f a s) g)
after_assoc (s, ok a) f g = refl
after_assoc (s, err e) f g = refl

-- Two continuations that agree on what an action returned.
pub after_congr :
    {S A B : Type 0} (p : S × Result A) (f g : A → Action S B)
    → ((a : A) → p.1 ≡ ok a → f a p.0 ≡ g a p.0)
    → after p f ≡ after p g
after_congr (s, ok a) f g h = h a refl
after_congr (s, err e) f g h = refl

pub after_pure : {S A : Type 0} (p : S × Result A) → after p (λ a s. (s, ok a)) ≡ p
after_pure (s, ok a) = refl
after_pure (s, err e) = refl

pub map_err-eq-ok :
    {A : Type 0} (f : Error → Error) (r : Result A) {a : A} → map_err f r ≡ ok a → r ≡ ok a
map_err-eq-ok f (ok a) h = h
map_err-eq-ok f (err e) h = cc
