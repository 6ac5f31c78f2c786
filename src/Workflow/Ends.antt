-- ===== src/Workflow/Ends.antt =====
-- What holds at the end of calls that may raise, of their answers and of the state they leave.
use mathlib.Core.Path.{◌≡◌, refl, subst}
use mathlib.Core.Bool.{Bool, true, false}
use automated_short_drama.Prelude.{if◌then◌else◌}
use automated_short_drama.Errors.{Result, ok, err}
use automated_short_drama.Delivery.Flow.{◌>>>◌}

-- What holds of an answer, if there is one, and of the state that it leaves.
abbrev pub Holds {ℓ κ} :
    {Value : Type ℓ} {State : Type κ} → (Value → State → Type 0) → Result Value × State → Type 0
Holds P (err e, s) = Unit
Holds P (ok value, s) = P value s

pub Holds->>> {ℓ κ μ} :
    {Value : Type ℓ} {Next : Type κ} {State : Type μ} (P : Next → State → Type 0)
    (r : Result Value × State) (next : Value → State → Result Next × State)
    → ((value : Value) (s : State) → Holds P (next value s))
    → Holds P (r >>> next)
Holds->>> P (err e, s) next h = tt
Holds->>> P (ok value, s) next h = h value s

pub Holds-then {ℓ κ μ} :
    {Value : Type ℓ} {Next : Type κ} {State : Type μ} (Q : Value → State → Type 0)
    (P : Next → State → Type 0) (r : Result Value × State)
    (next : Value → State → Result Next × State)
    → Holds Q r
    → ((value : Value) (s : State) → Q value s → Holds P (next value s))
    → Holds P (r >>> next)
Holds-then Q P (err e, s) next q h = tt
Holds-then Q P (ok value, s) next q h = h value s q

pub Holds-if {ℓ κ} :
    {Value : Type ℓ} {State : Type κ} (P : Value → State → Type 0) (b : Bool)
    (r u : Result Value × State)
    → (b ≡ true → Holds P r)
    → (b ≡ false → Holds P u)
    → Holds P (if b then r else u)
Holds-if P true r u h k = h refl
Holds-if P false r u h k = k refl

pub Holds-weaken {ℓ κ} :
    {Value : Type ℓ} {State : Type κ} (P Q : Value → State → Type 0) (r : Result Value × State)
    → ((value : Value) (s : State) → P value s → Q value s)
    → Holds P r
    → Holds Q r
Holds-weaken P Q (err e, s) h k = tt
Holds-weaken P Q (ok value, s) h k = h value s k

pub Holds-eq-ok {ℓ κ} :
    {Value : Type ℓ} {State : Type κ} (P : Value → State → Type 0) (r : Result Value × State)
    (value : Value) (s : State)
    → Holds P r
    → r ≡ (ok value, s)
    → P value s
Holds-eq-ok P r value s h e = subst (Holds P) e h

-- What holds of the state that an error leaves, and of an answer with its state.
abbrev pub Ends {ℓ κ} :
    {Value : Type ℓ} {State : Type κ}
    → (State → Type 0)
    → (Value → State → Type 0)
    → Result Value × State
    → Type 0
Ends E P (err e, s) = E s
Ends E P (ok value, s) = P value s

pub Ends->>> {ℓ κ μ} :
    {Value : Type ℓ} {Next : Type κ} {State : Type μ} (E : State → Type 0)
    (Q : Value → State → Type 0) (P : Next → State → Type 0) (r : Result Value × State)
    (next : Value → State → Result Next × State)
    → Ends E Q r
    → ((value : Value) (s : State) → Q value s → Ends E P (next value s))
    → Ends E P (r >>> next)
Ends->>> E Q P (err e, s) next q h = q
Ends->>> E Q P (ok value, s) next q h = h value s q

pub Ends-if {ℓ κ} :
    {Value : Type ℓ} {State : Type κ} (E : State → Type 0) (P : Value → State → Type 0) (b : Bool)
    (r u : Result Value × State)
    → Ends E P r
    → Ends E P u
    → Ends E P (if b then r else u)
Ends-if E P true r u h k = h
Ends-if E P false r u h k = k
