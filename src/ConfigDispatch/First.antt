-- ===== src/ConfigDispatch/First.antt =====
-- The tests of a line, each of which may answer it.
use lo_ra_ham_daemon.Base.{
  All, Bool, List, Option, [], arith, false, none, refl, some, true, ◌∷◌, ◌≡◌,
}
use mathlib.Core.Path.{subst}
use lo_ra_ham_daemon.ConfigApply.{parsed_or}
use lo_ra_ham_daemon.ConfigDispatch.{first_of, handle, when}

-- What is recognised first is one of the tests' answers.
pub first_of-elim {ℓ κ} :
    {A : Type ℓ} (P : A → Type κ) (os : List (Option A))
    → All (λ o. (b : A) → o ≡ some b → P b) os
    → (a : A) → first_of os ≡ some a
    → P a
first_of-elim P [] h a e = absurd (ground (arith, e))
first_of-elim P (none ∷ os) (_, h) a e = first_of-elim P os h a e
first_of-elim P (some b ∷ os) (p, h) a e = p a e

pub parsed_or-elim {ℓ κ} :
    {A : Type ℓ} (P : A → Type κ) (o : Option A) (d : A)
    → ((a : A) → o ≡ some a → P a)
    → (o ≡ none → P d)
    → P (parsed_or o d)
parsed_or-elim P none d h n = n refl
parsed_or-elim P (some a) d h n = h a refl

pub handle-elim {ℓ κ μ} :
    {A : Type ℓ} {B : Type κ} (P : B → Type μ) (o : Option A) (f : A → B)
    → ((a : A) → o ≡ some a → P (f a))
    → (b : B) → handle o f ≡ some b
    → P b
handle-elim P none f h b e = absurd (ground (arith, e))
handle-elim P (some a) f h b e = subst P (ground (arith, e)) (h a refl)

pub when-elim {ℓ κ} :
    {A : Type ℓ} (P : A → Type κ) (test : Bool) (a : A)
    → (test ≡ true → P a)
    → (b : A) → when test a ≡ some b
    → P b
when-elim P true a h b e = subst P (ground (arith, e)) (h refl)
when-elim P false a h b e = absurd (ground (arith, e))
