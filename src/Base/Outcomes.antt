-- ===== src/Base/Outcomes.antt =====
-- How a call ends: it returns, it throws an exception that a handler can catch (the text is `what()`),
-- or the process dies in `std::terminate`, which no handler sees.
use mathlib.Core.Path.{◌≡◌, refl}
use pgw.Base.Texts.{Text}

pub data Outcome {ℓ} (A : Type ℓ) : Type ℓ where
  returns : A → Outcome A
  throws : Text → Outcome A
  terminates : Outcome A

infixl 5 ◌>>=◌
abbrev pub ◌>>=◌ {ℓ κ} : {A : Type ℓ} {B : Type κ} → Outcome A → (A → Outcome B) → Outcome B
returns a >>= f = f a
throws e >>= f = throws e
terminates >>= f = terminates

-- A function marked `noexcept`: an exception that would leave it ends the process.
abbrev pub no_except {ℓ} : {A : Type ℓ} → Outcome A → Outcome A
no_except (returns a) = returns a
no_except (throws e) = terminates
no_except terminates = terminates

-- `try { m } catch (const std::exception& e) { handler }`.
abbrev pub try_catch {ℓ} : {A : Type ℓ} → Outcome A → (Text → Outcome A) → Outcome A
try_catch (returns a) handler = returns a
try_catch (throws e) handler = handler e
try_catch terminates handler = terminates

-- A chain that returned: each link did.
pub bind-returns {ℓ κ} :
    {A : Type ℓ} {B : Type κ} (m : Outcome A) (f : A → Outcome B) (b : B)
    → (m >>= f) ≡ returns b
    → (a : A) × (m ≡ returns a) × (f a ≡ returns b)
bind-returns (returns a) f b h = (a, refl, h)
bind-returns (throws e) f b h = cc
bind-returns terminates f b h = cc

-- A chain of three links, and of four, that do not depend on each other.
pub bind3-returns {ℓ₁ ℓ₂ ℓ₃ ℓ₄} :
    {A : Type ℓ₁} {B : Type ℓ₂} {C : Type ℓ₃} {E : Type ℓ₄} (m : Outcome A) (n : Outcome B)
    (o : Outcome C) (f : A → B → C → E) (e : E)
    → (m >>= (λ a. n >>= (λ b. o >>= (λ c. returns (f a b c))))) ≡ returns e
    → (a : A) × (b : B) × (c : C) × (m ≡ returns a)
      × (n ≡ returns b)
      × (o ≡ returns c)
      × (f a b c ≡ e)
bind3-returns (returns a) (returns b) (returns c) f e h = (a, b, c, refl, refl, refl, cc)
bind3-returns (returns a) (returns b) (throws w) f e h = cc
bind3-returns (returns a) (returns b) terminates f e h = cc
bind3-returns (returns a) (throws w) o f e h = cc
bind3-returns (returns a) terminates o f e h = cc
bind3-returns (throws w) n o f e h = cc
bind3-returns terminates n o f e h = cc

pub bind4-returns {ℓ₁ ℓ₂ ℓ₃ ℓ₄ ℓ₅} :
    {A : Type ℓ₁} {B : Type ℓ₂} {C : Type ℓ₃} {D : Type ℓ₄} {E : Type ℓ₅} (m : Outcome A)
    (n : Outcome B) (o : Outcome C) (p : Outcome D) (f : A → B → C → D → E) (e : E)
    → (m >>= (λ a. n >>= (λ b. o >>= (λ c. p >>= (λ d. returns (f a b c d)))))) ≡ returns e
    → (a : A) × (b : B) × (c : C) × (d : D) × (m ≡ returns a)
      × (n ≡ returns b)
      × (o ≡ returns c)
      × (p ≡ returns d)
      × (f a b c d ≡ e)
bind4-returns (returns a) n o p f e h =
    let (b, c, d, eb, ec, ed, q) = bind3-returns n o p (f a) e h in
    (a, b, c, d, refl, eb, ec, ed, q)
bind4-returns (throws w) n o p f e h = cc
bind4-returns terminates n o p f e h = cc
