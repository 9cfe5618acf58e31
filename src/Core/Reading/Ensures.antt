-- ===== src/Core/Reading/Ensures.antt =====
-- Rules for what the parts of a round of read_thread ensure, where they have a result.
use tapi2p.Base.{List, [], ◌∷◌, ◌++◌, Bool, true, false, if◌then◌else◌}
use tapi2p.Core.Reading.{Outcome, ok, in_recv, fault, ◌>>=◌}

-- The result has the property, where there is one.
abbrev pub Ensures : {A : Type 0} → (A → Type 0) → Outcome A → Type 0
Ensures P (ok a) = P a
Ensures P in_recv = Unit
Ensures P fault = Unit

pub Ensures-bind :
    {A B : Type 0} (P : A → Type 0) (Q : B → Type 0) (r : Outcome A) (f : A → Outcome B)
    → Ensures P r
    → ((a : A) → P a → Ensures Q (f a))
    → Ensures Q (r >>= f)
Ensures-bind P Q (ok a) f h k = k a h
Ensures-bind P Q in_recv f h k = tt
Ensures-bind P Q fault f h k = tt

abbrev pub Anything : {A : Type 0} → A → Type 0
Anything a = Unit

pub Ensures-any : {A : Type 0} (r : Outcome A) → Ensures Anything r
Ensures-any (ok a) = tt
Ensures-any in_recv = tt
Ensures-any fault = tt

pub Ensures-if :
    {A : Type 0} (P : A → Type 0) (b : Bool) (x y : Outcome A)
    → Ensures P x
    → Ensures P y
    → Ensures P (if b then x else y)
Ensures-if P true x y h k = h
Ensures-if P false x y h k = k

abbrev pub Each : {A : Type 0} → (A → Type 0) → List A → Type 0
Each P [] = Unit
Each P (x ∷ xs) = P x × Each P xs

pub Each-append :
    {A : Type 0} (P : A → Type 0) (xs ys : List A) → Each P xs → Each P ys → Each P (xs ++ ys)
Each-append P [] ys h k = k
Each-append P (x ∷ xs) ys h k = (h.0, Each-append P xs ys h.1 k)
