-- ===== src/Prelude/Results.antt =====
-- How a result that a conditional or an optional value decides is taken apart.
use mathlib.Core.Option.{some-injective}
use notepadpp_sync.Prelude.{◌≡◌, refl, subst, Bool, true, false, Option, none, some, if◌then◌else◌}

module _ {ℓ ℓ'} {B : Type ℓ} (P : B → Type ℓ') (u : B) where
  pub by_value : (x : B) → P x → some x ≡ some u → P u
  by_value x h e = subst P (some-injective x u e) h

  pub by_none : none ≡ some u → P u
  by_none e = cc

  pub by_cond :
      (b : Bool) (x y : Option B)
      → (b ≡ true → x ≡ some u → P u)
      → (b ≡ false → y ≡ some u → P u)
      → (if b then x else y) ≡ some u
      → P u
  by_cond true x y h k e = h refl e
  by_cond false x y h k e = k refl e

  pub by_option {ℓ''} :
      {A : Type ℓ''}
      → (o : Option A) (x : Option B) (f : A → Option B) → (o ≡ none → x ≡ some u → P u)
      → ((a : A) → o ≡ some a → f a ≡ some u → P u)
      → (elim o [ none ↦ x | some a ↦ f a ]) ≡ some u
      → P u
  by_option none x f h k e = h refl e
  by_option (some a) x f h k e = k a refl e
