-- ===== src/Server/Outcomes.antt =====
-- Two ways to speak of how a call of the server ends, with their rules for a chain of calls.
use icbinn.Common.{◌≡◌, refl, subst}
use icbinn.Server.State.{Run, done, exited, fault, ◌>>=◌}

-- What a run does not do. (A conclusion by cases, so that it computes.)
abbrev pub NoFault : {A : Type 0} → Run A → Type 0
NoFault (done a) = Unit
NoFault exited = Unit
NoFault fault = ⊥

pub bind-NoFault :
    {A B : Type 0} (m : Run A) (f : A → Run B)
    → NoFault m
    → ((a : A) → m ≡ done a → NoFault (f a))
    → NoFault (m >>= f)
bind-NoFault (done a) f h g = g a refl
bind-NoFault exited f h g = tt
bind-NoFault fault f h g = h

abbrev pub NoExit : {A : Type 0} → Run A → Type 0
NoExit (done a) = Unit
NoExit exited = ⊥
NoExit fault = Unit

pub bind-NoExit :
    {A B : Type 0} (m : Run A) (f : A → Run B)
    → NoExit m
    → ((a : A) → NoExit (f a))
    → NoExit (m >>= f)
bind-NoExit (done a) f h g = g a
bind-NoExit exited f h g = h
bind-NoExit fault f h g = tt

-- A call that neither faults nor ends the process returns.
pub returns : {A : Type 0} (m : Run A) → NoFault m → NoExit m → (a : A) × (m ≡ done a)
returns (done a) f x = (a, refl)
returns exited f x = absurd x
returns fault f x = absurd f

-- Of a call that returns.
abbrev pub Returning : {A : Type 0} → (A → Type 0) → Run A → Type 0
Returning P (done a) = P a
Returning P exited = Unit
Returning P fault = Unit

pub bind-Returning :
    {A B : Type 0} (P : A → Type 0) (Q : B → Type 0) (m : Run A) (f : A → Run B)
    → Returning P m
    → ((a : A) → P a → Returning Q (f a))
    → Returning Q (m >>= f)
bind-Returning P Q (done a) f h g = g a h
bind-Returning P Q exited f h g = tt
bind-Returning P Q fault f h g = tt

pub Returning-mono :
    {A : Type 0} (P Q : A → Type 0) (m : Run A)
    → Returning P m
    → ((a : A) → P a → Q a)
    → Returning Q m
Returning-mono P Q (done a) h f = f a h
Returning-mono P Q exited h f = tt
Returning-mono P Q fault h f = tt

pub Returning-any : {A : Type 0} (m : Run A) → Returning (λ a. Unit {0}) m
Returning-any (done a) = tt
Returning-any exited = tt
Returning-any fault = tt

-- A call that returns.
abbrev pub Returns : {A : Type 0} → Run A → Type 0
Returns {A} m = (a : A) × (m ≡ done a)

pub bind-Returns :
    {A B : Type 0} (m : Run A) (f : A → Run B)
    → Returns m
    → ((a : A) → Returns (f a))
    → Returns (m >>= f)
bind-Returns m f (a, e) g = rw e (g a)

-- What holds of a call if it returns holds of what it returns.
pub Returning-done :
    {A : Type 0} (P : A → Type 0) (m : Run A) (a : A) → Returning P m → m ≡ done a → P a
Returning-done P m a h e = subst (Returning P) e h
