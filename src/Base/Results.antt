-- ===== src/Base/Results.antt =====
-- Exceptions as values, and methods that mutate an object and may raise.
-- What was written before a raise stays written, so the state comes back beside the error too.
use mathlib.Core.Path.{◌≡◌, refl, subst}
use mathlib.Core.Bool.{Bool, true, false}
use clipper_ai.Base.Tests.{if◌then◌else◌}

pub data Result (E A : Type 0) : Type 0 where
  ok : A → Result E A
  err : E → Result E A

abbrev pub raised : {E A : Type 0} → Result E A → Bool
raised (ok _) = false
raised (err _) = true

pub ok_inj : {E A : Type 0} {a b : A} → ◌≡◌ {A = Result E A} (ok a) (ok b) → a ≡ b
ok_inj e = cc

pub err_ne_ok : {E A : Type 0} {e : E} {a : A} → ◌≡◌ {A = Result E A} (err e) (ok a) → ⊥
err_ne_ok e = cc

abbrev pub Exec : Type 0 → Type 0 → Type 0 → Type 0
Exec E S A = S → Result E A × S

module _ {E S A : Type 0} where
  abbrev pub pure : A → Exec E S A
  pure a s = (ok a, s)

  abbrev pub raise : E → Exec E S A
  raise e s = (err e, s)

  abbrev pub gets : (S → A) → Exec E S A
  gets f s = (ok (f s), s)

module _ {E S : Type 0} where
  abbrev pub modify : (S → S) → Exec E S (Unit {0})
  modify f s = (ok tt, f s)

  abbrev pub raise_if : Bool → E → Exec E S (Unit {0})
  raise_if b e s = (if b then err e else ok tt, s)

module _ {E S A B : Type 0} where
  abbrev pub continue : Result E A → (A → Exec E S B) → Exec E S B
  continue (ok a) f s = f a s
  continue (err e) f s = (err e, s)

  infixl 10 ◌>>=◌
  abbrev pub ◌>>=◌ : Exec E S A → (A → Exec E S B) → Exec E S B
  ◌>>=◌ m f s = let (r, s') = m s in continue r f s'

infixl 10 ◌>>◌
abbrev pub ◌>>◌ : {E S A B : Type 0} → Exec E S A → Exec E S B → Exec E S B
m >> n = m >>= λ _. n

-- A last line that only builds the answer leaves the state alone.
pub state-bind-pure :
    {E S A B : Type 0} (m : Exec E S A) (g : A → B) (s : S)
    → ((m >>= λ a. pure (g a)) s).1 ≡ (m s).1
state-bind-pure {E} {S} {A} m g s = let (r, s') = m s in go r s'
  where
    go : (r : Result E A) (s' : S) → (continue r (λ a. pure (g a)) s').1 ≡ s'
    go (ok a) s' = refl
    go (err e) s' = refl

-- What a sequence that has returned did.
module _ {E S A B : Type 0} (m : Exec E S A) (f : A → Exec E S B) (s : S) where
  pub bind_ok : (a : A) → (m s).0 ≡ ok a → (m >>= f) s ≡ f a (m s).1
  bind_ok a e = rw e refl

  pub bind-ok_inv :
      (b : B) → ((m >>= f) s).0 ≡ ok b → (a : A) × ((m s).0 ≡ ok a) × ((m >>= f) s ≡ f a (m s).1)
  bind-ok_inv b h = let (r, s') = m s in go r s' h
    where
      go :
          (r : Result E A) (s' : S)
          → (continue r f s').0 ≡ ok b
          → (a : A) × (r ≡ ok a) × (continue r f s' ≡ f a s')
      go (ok a) s' h = (a, refl, refl)
      go (err e) s' h = absurd (err_ne_ok h)

-- An action after which `P` holds whenever it held before, on both ways out.
pub record Keeps {E S A : Type 0} (P : S → Type 0) (body : Exec E S A) : Type 0 where
  pub at : (before : S) → P before → P (body before).1

module _ {E S A : Type 0} {P : S → Type 0} where
  pub Keeps-if :
      (test : Bool) (left right : Exec E S A)
      → (test ≡ true → Keeps P left)
      → (test ≡ false → Keeps P right)
      → Keeps P (if test then left else right)
  Keeps-if false left right then_keeps else_keeps = else_keeps refl
  Keeps-if true left right then_keeps else_keeps = then_keeps refl

  pub Keeps-gets : (read : S → A) → Keeps P (gets {E = E} read)
  Keeps-gets read = record { at = λ u held. held }

  pub Keeps-raise : (e : E) → Keeps P (raise {A = A} e)
  Keeps-raise e = record { at = λ u held. held }

  pub Keeps-pure : (a : A) → Keeps P (pure {E = E} a)
  Keeps-pure a = record { at = λ u held. held }

module _ {E S : Type 0} {P : S → Type 0} where
  pub Keeps-raise_if : (test : Bool) (e : E) → Keeps P (raise_if test e)
  Keeps-raise_if test e = record { at = λ u held. held }

module _ {E S A B : Type 0} {P : S → Type 0} where
  Keeps-continue :
      (rest : A → Exec E S B) (r : Result E A)
      → ((a : A) → Keeps P (rest a))
      → (u : S) → P u
      → P (continue r rest u).1
  Keeps-continue rest (ok a) rest_keeps u held = (rest_keeps a).at u held
  Keeps-continue rest (err e) rest_keeps u held = held

  pub Keeps-bind :
      (first : Exec E S A) (rest : A → Exec E S B)
      → Keeps P first
      → ((a : A) → Keeps P (rest a))
      → Keeps P (first >>= rest)
  Keeps-bind first rest first_keeps rest_keeps = record {
    at = λ u held.
        let (r, u') = first u in Keeps-continue rest r rest_keeps u' (first_keeps.at u held);
  }

pub ruleset keeps_rules =
    (Keeps-bind, Keeps-pure, Keeps-raise, Keeps-gets, Keeps-if, Keeps-raise_if)

-- An action after which `Q` holds of its answer and the state, when it returns.
pub record Ensures {E S A : Type 0} (Q : A → S → Type 0) (body : Exec E S A) : Type 0 where
  pub result : (before : S) (a : A) → (body before).0 ≡ ok a → Q a (body before).1

module _ {E S B : Type 0} {Q : B → S → Type 0} where
  pub Ensures-pure : (b : B) → ((u : S) → Q b u) → Ensures Q (pure {E = E} b)
  Ensures-pure b holds = record { result = λ u a h. subst (λ x. Q x u) (ok_inj h) (holds u) }

  pub Ensures-raise : (e : E) → Ensures Q (raise {A = B} e)
  Ensures-raise e = record { result = λ u b h. absurd (err_ne_ok h) }

  pub Ensures-if :
      (test : Bool) (left right : Exec E S B)
      → (test ≡ true → Ensures Q left)
      → (test ≡ false → Ensures Q right)
      → Ensures Q (if test then left else right)
  Ensures-if false left right then_ensures else_ensures = else_ensures refl
  Ensures-if true left right then_ensures else_ensures = then_ensures refl

-- What the end of a sequence ensures, the sequence ensures.
module _ {E S A B : Type 0} {Q : B → S → Type 0} where
  pub Ensures-bind :
      (first : Exec E S A) (rest : A → Exec E S B)
      → ((a : A) → Ensures Q (rest a))
      → Ensures Q (first >>= rest)
  Ensures-bind first rest rest_ensures = record {
    result = λ u b h. let (r, u') = first u in go r u' b h;
  }
    where
      go :
          (r : Result E A) (u' : S) (b : B)
          → (continue r rest u').0 ≡ ok b
          → Q b (continue r rest u').1
      go (ok a) u' b h = (rest_ensures a).result u' b h
      go (err e) u' b h = absurd (err_ne_ok h)

module _ {E S A B : Type 0} {R : A → S → Type 0} {Q : B → S → Type 0} where
  -- The same where the end relies on what the beginning ensures.
  pub Ensures-then :
      (first : Exec E S A) (rest : A → Exec E S B)
      → Ensures R first
      → ((a : A) (u : S) → R a u → (b : B) → (rest a u).0 ≡ ok b → Q b (rest a u).1)
      → Ensures Q (first >>= rest)
  Ensures-then first rest first_ensures rest_ensures = record {
    result = λ u b h. let (r, u') = first u in go r u' (λ a e. first_ensures.result u a e) b h;
  }
    where
      go :
          (r : Result E A) (u' : S)
          → ((a : A) → r ≡ ok a → R a u')
          → (b : B) → (continue r rest u').0 ≡ ok b
          → Q b (continue r rest u').1
      go (ok a) u' k b h = rest_ensures a u' (k a refl) b h
      go (err e) u' k b h = absurd (err_ne_ok h)
