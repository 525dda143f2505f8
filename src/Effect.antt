-- ===== src/Effect.antt =====
-- Stateful code that can throw, or meet what C++ leaves undefined (an index out of bounds). The state
-- at the throw is kept, since a handler goes on from it.
use konro.Base.{Bool, true, false, Option, none, some, if◌then◌else◌}

pub data Exit {ℓ} (A : Type ℓ) : Type ℓ where
  ok : A → Exit A
  exception : Exit A
  undefined : Exit A

abbrev pub M : Type 0 → Type 0 → Type 0
M S A = S → Exit A × S

abbrev pub continue : {S A B : Type 0} → Exit A × S → (A → M S B) → Exit B × S
continue (ok a, s) f = f a s
continue (exception, s) f = (exception, s)
continue (undefined, s) f = (undefined, s)

infixl 5 ◌>>=◌ ◌>>◌
abbrev pub ◌>>=◌ : {S A B : Type 0} → M S A → (A → M S B) → M S B
◌>>=◌ m f s = continue (m s) f

abbrev pub ◌>>◌ : {S B : Type 0} → M S (Unit {0}) → M S B → M S B
◌>>◌ m k s = continue (m s) (λ _. k)

abbrev pub pure : {S A : Type 0} → A → M S A
pure a s = (ok a, s)

abbrev pub get : {S : Type 0} → M S S
get s = (ok s, s)

abbrev pub modify : {S : Type 0} → (S → S) → M S (Unit {0})
modify f s = (ok tt, f s)

-- A value that is missing where the code's read or write is out of bounds.
abbrev pub in_bounds : {S A : Type 0} → Option A → M S A
in_bounds none s = (undefined, s)
in_bounds (some a) s = (ok a, s)

-- try { m } catch (exception &) { }
abbrev pub caught : {S : Type 0} → Exit (Unit {0}) × S → Exit (Unit {0}) × S
caught (ok a, s) = (ok a, s)
caught (exception, s) = (ok tt, s)
caught (undefined, s) = (undefined, s)

abbrev pub attempt : {S : Type 0} → M S (Unit {0}) → M S (Unit {0})
attempt m s = caught (m s)

-- What holds of the value and the state where the code returns.
unfoldable pub Returns : {S A : Type 0} → (A → S → Type 0) → Exit A × S → Type 0
Returns P (ok a, s) = P a s
Returns P (exception, s) = Unit {0}
Returns P (undefined, s) = Unit {0}

pub continue-Returns :
    {S A B : Type 0} (P : A → S → Type 0) (Q : B → S → Type 0) (r : Exit A × S) (f : A → M S B)
    → Returns P r
    → ((a : A) (s : S) → P a s → Returns Q (f a s))
    → Returns Q (continue r f)
unfolding Returns
continue-Returns P Q (ok a, s) f h k = k a s h
continue-Returns P Q (exception, s) f h k = tt
continue-Returns P Q (undefined, s) f h k = tt

-- A call of which nothing is known.
pub Returns-any : {S A : Type 0} (r : Exit A × S) → Returns (λ a s. Unit {0}) r
unfolding Returns
Returns-any (ok a, s) = tt
Returns-any (exception, s) = tt
Returns-any (undefined, s) = tt

pub if-Returns :
    {S A : Type 0} (P : A → S → Type 0) (m k : M S A) (s : S) (t : Bool)
    → Returns P (m s)
    → Returns P (k s)
    → Returns P ((if t then m else k) s)
if-Returns P m k s true h h' = h
if-Returns P m k s false h h' = h'

pub Returns-map :
    {S A : Type 0} (P Q : A → S → Type 0) (r : Exit A × S)
    → Returns P r
    → ((a : A) (s : S) → P a s → Q a s)
    → Returns Q r
unfolding Returns
Returns-map P Q (ok a, s) h f = f a s h
Returns-map P Q (exception, s) h f = tt
Returns-map P Q (undefined, s) h f = tt

pub Returns-both :
    {S A : Type 0} (P Q : A → S → Type 0) (r : Exit A × S)
    → Returns P r
    → Returns Q r
    → Returns (λ a s. P a s × Q a s) r
unfolding Returns
Returns-both P Q (ok a, s) h k = (h, k)
Returns-both P Q (exception, s) h k = tt
Returns-both P Q (undefined, s) h k = tt

-- No undefined behaviour is met.
abbrev pub IsDefined : {S A : Type 0} → Exit A × S → Type 0
IsDefined (ok a, s) = Unit {0}
IsDefined (exception, s) = Unit {0}
IsDefined (undefined, s) = ⊥

pub continue-IsDefined :
    {S A B : Type 0} (r : Exit A × S) (f : A → M S B)
    → IsDefined r
    → ((a : A) (s : S) → IsDefined (f a s))
    → IsDefined (continue r f)
continue-IsDefined (ok a, s) f h k = k a s
continue-IsDefined (exception, s) f h k = tt
continue-IsDefined (undefined, s) f h k = h
