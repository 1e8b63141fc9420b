-- ===== src/Prelude/Faults.antt =====
-- Computations that may fault, as values of `Option`, and what holds of their results.
use mathlib.Core.Path.{◌≡◌, refl, subst}
use mathlib.Core.Option.{Option, none, some}
use mathlib.Core.Bool.{Bool, true, false}
use iocp_chatting.Prelude.Tests.{if◌then◌else◌}

infixl 5 ◌>>=◌
abbrev pub ◌>>=◌ {ℓ κ} : {A : Type ℓ} {B : Type κ} → Option A → (A → Option B) → Option B
none >>= f = none
some a >>= f = f a

-- A test for a null pointer: what to do at null, and what with a pointer that is not.
abbrev pub if_null {ℓ κ} : {A : Type ℓ} {B : Type κ} → Option A → B → (A → B) → B
if_null none b f = b
if_null (some a) b f = f a

-- A postcondition: it holds of the value, if there is one.
abbrev pub Ensures {ℓ κ} : {A : Type ℓ} → (A → Type κ) → Option A → Type κ
Ensures P none = Unit
Ensures P (some a) = P a

-- The rule for a step that is followed by others.
pub Ensures->>= {ℓ κ ι} :
    {A : Type ℓ} {B : Type κ} (Q : A → Type ι) (P : B → Type ι) (m : Option A) (f : A → Option B)
    → Ensures Q m
    → ((a : A) → Q a → Ensures P (f a))
    → Ensures P (m >>= f)
Ensures->>= Q P none f h k = tt
Ensures->>= Q P (some a) f h k = k a h

-- The same, keeping the equation of the step.
pub Ensures-of_eq {ℓ κ ι} :
    {A : Type ℓ} {B : Type κ} (P : B → Type ι) (m : Option A) (f : A → Option B)
    → ((a : A) → m ≡ some a → Ensures P (f a))
    → Ensures P (m >>= f)
Ensures-of_eq P none f k = tt
Ensures-of_eq P (some a) f k = k a refl

pub Ensures-some {ℓ κ} :
    {A : Type ℓ} (P : A → Type κ) (m : Option A) {a : A} → Ensures P m → m ≡ some a → P a
Ensures-some P m h e = subst (Ensures P) e h

pub some_of_eq {ℓ κ} :
    {A : Type ℓ} {B : Type κ} (m : Option A) (f : A → Option B) {b : B}
    → (m >>= f) ≡ some b
    → (a : A) × (m ≡ some a) × (f a ≡ some b)
some_of_eq none f h = cc
some_of_eq (some a) f h = (a, refl, h)

-- The rule for a test.
pub Ensures-if {ℓ κ} :
    {A : Type ℓ} (P : A → Type κ) (b : Bool) (m n : Option A)
    → (b ≡ true → Ensures P m)
    → (b ≡ false → Ensures P n)
    → Ensures P (if b then m else n)
Ensures-if P true m n h k = h refl
Ensures-if P false m n h k = k refl

-- The rule for a test for null.
pub Ensures-if_null {ℓ κ ι} :
    {A : Type ℓ} {B : Type κ} (P : B → Type ι) (o : Option A) (m : Option B) (f : A → Option B)
    → Ensures P m
    → ((a : A) → o ≡ some a → Ensures P (f a))
    → Ensures P (if_null o m f)
Ensures-if_null P none m f h k = h
Ensures-if_null P (some a) m f h k = k a refl

-- A postcondition may be weakened.
pub Ensures-mono {ℓ κ ι} :
    {A : Type ℓ} (P : A → Type κ) (Q : A → Type ι) (m : Option A)
    → Ensures P m
    → ((a : A) → P a → Q a)
    → Ensures Q m
Ensures-mono P Q none h k = tt
Ensures-mono P Q (some a) h k = k a h

pub Ensures-and {ℓ κ ι} :
    {A : Type ℓ} (P : A → Type κ) (Q : A → Type ι) (m : Option A)
    → Ensures P m
    → Ensures Q m
    → Ensures (λ a. P a × Q a) m
Ensures-and P Q none h k = tt
Ensures-and P Q (some a) h k = (h, k)

-- A computation that does not fault, and what holds of its value.
abbrev pub Succeeds {ℓ} : {A : Type ℓ} → (A → Type 0) → Option A → Type 0
Succeeds P none = ⊥
Succeeds P (some a) = P a

pub Succeeds->>= {ℓ κ} :
    {A : Type ℓ} {B : Type κ} (Q : A → Type 0) (P : B → Type 0) (m : Option A) (f : A → Option B)
    → Succeeds Q m
    → ((a : A) → Q a → Succeeds P (f a))
    → Succeeds P (m >>= f)
Succeeds->>= Q P none f h k = elim h [ ]
Succeeds->>= Q P (some a) f h k = k a h

pub Succeeds-of_eq {ℓ κ} :
    {A : Type ℓ} {B : Type κ} (P : B → Type 0) (m : Option A) (f : A → Option B) {a : A}
    → m ≡ some a
    → Succeeds P (f a)
    → Succeeds P (m >>= f)
Succeeds-of_eq P m f e h = rw e h

pub Succeeds-if {ℓ} :
    {A : Type ℓ} (P : A → Type 0) (b : Bool) (m n : Option A)
    → Succeeds P m
    → Succeeds P n
    → Succeeds P (if b then m else n)
Succeeds-if P true m n h k = h
Succeeds-if P false m n h k = k

pub some_of_Succeeds {ℓ} :
    {A : Type ℓ} (P : A → Type 0) (m : Option A) → Succeeds P m → (a : A) × (m ≡ some a) × P a
some_of_Succeeds P none h = elim h [ ]
some_of_Succeeds P (some a) h = (a, refl, h)
