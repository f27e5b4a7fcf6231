-- ===== src/Prelude/Outcome.antt =====
-- How a C++ function can end: with a value, with an exception, or in undefined behaviour, which is
-- a value of the model so that its absence can be stated.

use mathlib.Core.Path.{◌≡◌, refl}

-- The exceptions that the plugin's code, the standard library or a library under it throws.
pub data Exception : Type 0 where
  missing_slash bad_address bad_family bad_netmask null_pointer bad_prefix : Exception
  invalid_argument out_of_range : Exception

pub data Fault : Type 0 where
  null_deref out_of_bounds double_free wild_free stack_overrun int_overflow : Fault
  uncaught : Exception → Fault
  empty_deref : Fault
  -- the fuel of a loop of the model ran out
  out_of_fuel : Fault

pub data Outcome {ℓ} (A : Type ℓ) : Type ℓ where
  value : A → Outcome A
  throws : Exception → Outcome A
  fault : Fault → Outcome A

infixl 5 ◌>>=◌
abbrev pub ◌>>=◌ {ℓ κ} : {A : Type ℓ} {B : Type κ} → Outcome A → (A → Outcome B) → Outcome B
value a >>= f = f a
throws e >>= f = throws e
fault u >>= f = fault u

pub bind_assoc {ℓ κ μ} :
    {A : Type ℓ} {B : Type κ} {C : Type μ} (o : Outcome A) (f : A → Outcome B) (g : B → Outcome C)
    → ((o >>= f) >>= g) ≡ (o >>= λ a. f a >>= g)
bind_assoc (value a) f g = refl
bind_assoc (throws e) f g = refl
bind_assoc (fault u) f g = refl

pub bind_ext {ℓ κ} :
    {A : Type ℓ} {B : Type κ} (o : Outcome A) (f g : A → Outcome B)
    → ((a : A) → f a ≡ g a)
    → (o >>= f) ≡ (o >>= g)
bind_ext (value a) f g h = h a
bind_ext (throws e) f g h = refl
bind_ext (fault u) f g h = refl

pub bind_value {ℓ} : {A : Type ℓ} (o : Outcome A) → (o >>= λ a. value a) ≡ o
bind_value (value a) = refl
bind_value (throws e) = refl
bind_value (fault u) = refl

-- A chain that ends in a value has a value at each step.
pub bind_value_steps {ℓ κ} :
    {A : Type ℓ} {B : Type κ} (o : Outcome A) (f : A → Outcome B) (b : B)
    → (o >>= f) ≡ value b
    → (a : A) × (o ≡ value a) × (f a ≡ value b)
bind_value_steps (value a) f b h = (a, refl, h)
bind_value_steps (throws e) f b h = cc
bind_value_steps (fault u) f b h = cc
