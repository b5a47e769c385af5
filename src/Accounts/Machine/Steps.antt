-- ===== src/Accounts/Machine/Steps.antt =====
-- How operations of the accounts end: the rules to pass from step to step.
use oxyris.Prelude.{◌≡◌, sym, subst, refl, Result, ok, err}
use oxyris.Accounts.Machine.{M, and_go, ◌>>=◌}

-- A predicate on how an operation ends, and the rule to pass from step to step.
abbrev pub Ends : {W E A : Type 0} → (Result E A → W → Type 0) → Result E A × W → Type 0
Ends Q (r, w) = Q r w

-- On a success, and on an error.
abbrev pub OnOk : {W E A : Type 0} → (W → Type 0) → Result E A → W → Type 0
OnOk P (ok a) w = P w
OnOk P (err e) w = Unit

abbrev pub OnErr : {W E A : Type 0} → (W → Type 0) → Result E A → W → Type 0
OnErr P (ok a) w = Unit
OnErr P (err e) w = P w

pub OnOk-mono :
    {W E A : Type 0} (P Q : W → Type 0) (r : Result E A × W)
    → ((w : W) → P w → Q w)
    → Ends (OnOk P) r
    → Ends (OnOk Q) r
OnOk-mono P Q (ok a, w) f h = f w h
OnOk-mono P Q (err e, w) f h = tt

pub and_go-Ends :
    {W E A B : Type 0} (P : Result E A → W → Type 0) (Q : Result E B → W → Type 0)
    (r : Result E A × W) (f : A → M W E B)
    → Ends P r
    → ((a : A) (w : W) → P (ok a) w → Ends Q (f a w))
    → ((e : E) (w : W) → P (err e) w → Q (err e) w)
    → Ends Q (and_go r f)
and_go-Ends P Q (ok a, w) f h go stop = go a w h
and_go-Ends P Q (err e, w) f h go stop = stop e w h

-- What each step keeps, the operation keeps.
and_go-Kept :
    {W E A B : Type 0} (P : W → Type 0) (r : Result E A × W) (f : A → M W E B)
    → P r.1
    → ((a : A) (w : W) → P w → P (f a w).1)
    → P (and_go r f).1
and_go-Kept P (ok a, w) f h go = go a w h
and_go-Kept P (err e, w) f h go = h

-- A step that leaves the machine as it was.
and_go-still :
    {W E A B : Type 0} (Q : Result E B → W → Type 0) (w : W) (r : Result E A × W) (f : A → M W E B)
    → r.1 ≡ w
    → ((a : A) → r.0 ≡ ok a → Ends Q (f a w))
    → ((e : E) → Q (err e) w)
    → Ends Q (and_go r f)
and_go-still Q w (ok a, w') f still go stop = subst (λ v. Ends Q (f a v)) (sym still) (go a refl)
and_go-still Q w (err e, w') f still go stop = subst (Q (err e)) (sym still) (stop e)

-- The same rules for a bind.
module _ {W E A B : Type 0} where
  pub >>=-Ends :
      (P : Result E A → W → Type 0) (Q : Result E B → W → Type 0) (m : M W E A) (f : A → M W E B)
      (w : W)
      → Ends P (m w)
      → ((a : A) (w' : W) → P (ok a) w' → Ends Q (f a w'))
      → ((e : E) (w' : W) → P (err e) w' → Q (err e) w')
      → Ends Q ((m >>= f) w)
  unfolding ◌>>=◌
  >>=-Ends P Q m f w = and_go-Ends P Q (m w) f

  pub >>=-Kept :
      (P : W → Type 0) (m : M W E A) (f : A → M W E B) (w : W)
      → P (m w).1
      → ((a : A) (w' : W) → P w' → P (f a w').1)
      → P ((m >>= f) w).1
  unfolding ◌>>=◌
  >>=-Kept P m f w = and_go-Kept P (m w) f

  pub >>=-still :
      (Q : Result E B → W → Type 0) (m : M W E A) (f : A → M W E B) (w : W)
      → (m w).1 ≡ w
      → ((a : A) → (m w).0 ≡ ok a → Ends Q (f a w))
      → ((e : E) → Q (err e) w)
      → Ends Q ((m >>= f) w)
  unfolding ◌>>=◌
  >>=-still Q m f w = and_go-still Q w (m w) f
