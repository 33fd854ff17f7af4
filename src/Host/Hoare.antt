-- ===== src/Host/Hoare.antt =====
-- Reasoning about actions, at a fixed environment: triples with a postcondition for the value that
-- comes back and one for the exception, and the two special cases that most proofs need.
use llauncher.Base.{Bool, true, false, ◌≡◌, refl, if◌then◌else◌}
use mathlib.Core.Path.{subst}
use llauncher.Host.State.{World, Env}
use llauncher.Host.Monad.{
  Exn, Result, ok, err, Exec, meet, pure, raise, step, attempt, continue, ◌>>=◌, ◌>>◌, finally,
}

-- What holds of an outcome.
abbrev pub Post :
    {A : Type 0} → (A → World → Type 0) → (Exn → World → Type 0) → Result A × World → Type 0
Post Q R (ok a, w) = Q a w
Post Q R (err x, w) = R x w

pub record Hoare {A : Type 0} (e : Env) (P : World → Type 0) (m : Exec A) (Q : A → World → Type 0)
    (R : Exn → World → Type 0) : Type 0 where
  pub at : (w : World) → P w → Post Q R (m e w)

-- The other processes leave `P` alone.
pub record Stable (e : Env) (P : World → Type 0) : Type 0 where
  pub meets : (w : World) → P w → P (meet e w)

-- `m` leaves `P` alone, whether it returns or raises.
abbrev pub Keeps : {A : Type 0} → Env → (World → Type 0) → Exec A → Type 0
Keeps e P m = Hoare e P m (λ _. P) (λ _. P)

-- What `m` returns, if it returns, satisfies `Q`.
abbrev pub Returns : {A : Type 0} → Env → (A → Type 0) → Exec A → Type 0
Returns e Q m = Hoare e (λ _. Unit {0}) m (λ a _. Q a) (λ _ _. Unit {0})

module _ {A : Type 0} {e : Env} {P : World → Type 0} {Q : A → World → Type 0}
    {R : Exn → World → Type 0} where
  pub Hoare-pure : (a : A) → ((w : World) → P w → Q a w) → Hoare e P (pure a) Q R
  Hoare-pure a h = record { at = h }

  pub Hoare-raise : (x : Exn) → ((w : World) → P w → R x w) → Hoare e P (raise x) Q R
  Hoare-raise x h = record { at = h }

  pub Hoare-step :
      (f : Env → World → Result A × World)
      → Stable e P
      → ((w : World) → P w → Post Q R (f e w))
      → Hoare e P (step f) Q R
  Hoare-step f s h = record { at = λ w p. h (meet e w) (s.meets w p) }

  pub Hoare-if :
      (b : Bool) (m n : Exec A)
      → (b ≡ true → Hoare e P m Q R)
      → (b ≡ false → Hoare e P n Q R)
      → Hoare e P (if b then m else n) Q R
  Hoare-if true m n hm hn = hm refl
  Hoare-if false m n hm hn = hn refl

module _ {A B : Type 0} {e : Env} {P : World → Type 0} {S : B → World → Type 0}
    {T : Exn → World → Type 0} where
  pub Hoare-attempt :
      {Q : A → World → Type 0} {R : Exn → World → Type 0} (m : Exec A) (body : A → Exec B)
      (handler : Exn → Exec B)
      → Hoare e P m Q R
      → ((a : A) → Hoare e (Q a) (body a) S T)
      → ((x : Exn) → Hoare e (R x) (handler x) S T)
      → Hoare e P (attempt m body handler) S T
  unfolding attempt
  Hoare-attempt {Q} {R} m body handler hm hb hh = record { at = λ w p. go (m e w) (hm.at w p) }
    where
      go : (o : Result A × World) → Post Q R o → Post S T (continue body handler o.0 e o.1)
      go (ok a, w') h = (hb a).at w' h
      go (err x, w') h = (hh x).at w' h

module _ {A : Type 0} {e : Env} where
  pub Hoare-weaken :
      {P P' : World → Type 0} {Q Q' : A → World → Type 0} {R R' : Exn → World → Type 0} {m : Exec A}
      → Hoare e P m Q R
      → ((w : World) → P' w → P w)
      → ((a : A) (w : World) → Q a w → Q' a w)
      → ((x : Exn) (w : World) → R x w → R' x w)
      → Hoare e P' m Q' R'
  Hoare-weaken {P} {P'} {Q} {Q'} {R} {R'} {m} h hp hq hr = record {
    at = λ w p. go (m e w) (h.at w (hp w p));
  }
    where
      go : (o : Result A × World) → Post Q R o → Post Q' R' o
      go (ok a, w) q = hq a w q
      go (err x, w) r = hr x w r

  -- What is true of every value needs no triple of its own.
  pub Hoare-any :
      {P : World → Type 0} (m : Exec A) → Hoare e P m (λ _ _. Unit {0}) (λ _ _. Unit {0})
  Hoare-any m = record { at = λ w p. go (m e w) }
    where
      go : (o : Result A × World) → Post (λ _ _. Unit {0}) (λ _ _. Unit {0}) o
      go (ok a, w) = tt
      go (err x, w) = tt

module _ {A B : Type 0} {e : Env} {P : World → Type 0} {S : B → World → Type 0}
    {R : Exn → World → Type 0} where
  pub Hoare-bind :
      {Q : A → World → Type 0} (m : Exec A) (f : A → Exec B)
      → Hoare e P m Q R
      → ((a : A) → Hoare e (Q a) (f a) S R)
      → Hoare e P (m >>= f) S R
  unfolding ◌>>=◌
  Hoare-bind m f hm hf = Hoare-attempt m f raise hm hf (λ x. Hoare-raise x (λ w r. r))

  pub Hoare-then :
      {Q : World → Type 0} (m : Exec A) (n : Exec B)
      → Hoare e P m (λ _. Q) R
      → Hoare e Q n S R
      → Hoare e P (m >> n) S R
  unfolding ◌>>◌
  Hoare-then m n hm hn = Hoare-bind m (λ _. n) hm (λ _. hn)

module _ {A : Type 0} {e : Env} {P : World → Type 0} {Q : A → World → Type 0}
    {R : Exn → World → Type 0} where
  pub Hoare-finally :
      {Q' : A → World → Type 0} {R' : Exn → World → Type 0} (m : Exec A) (f : Exec (Unit {0}))
      → Hoare e P m Q' R'
      → ((a : A) → Hoare e (Q' a) f (λ _. Q a) R)
      → ((x : Exn) → Hoare e (R' x) f (λ _. R x) R)
      → Hoare e P (finally m f) Q R
  unfolding finally
  Hoare-finally m f hm ha hx =
      Hoare-attempt m (λ a. f >> pure a) (λ x. f >> raise x) hm
        (λ a. Hoare-then f (pure a) (ha a) (Hoare-pure a (λ w q. q)))
        (λ x. Hoare-then f (raise x) (hx x) (Hoare-raise x (λ w r. r)))

-- A triple, used.
pub Post-ok :
    {A : Type 0} (Q : A → World → Type 0) (R : Exn → World → Type 0) (o : Result A × World) {a : A}
    → Post Q R o
    → o.0 ≡ ok a
    → Q a o.1
Post-ok {A} Q R (ok b, w) h p = subst (λ c. Q (value c) w) p h
  where
    value : Result A → A
    value (ok c) = c
    value (err x) = b
Post-ok Q R (err x, w) h p = cc

pub Returns-ok :
    {A : Type 0} {e : Env} {Q : A → Type 0} {m : Exec A} (w : World) {a : A}
    → Returns e Q m
    → (m e w).0 ≡ ok a
    → Q a
Returns-ok {A} {e} {Q} {m} w h p = Post-ok (λ a _. Q a) (λ _ _. Unit {0}) (m e w) (h.at w tt) p

-- A fact in the precondition that is not about the world.
pub Hoare-given :
    {A : Type 0} {e : Env} {F : Type 0} {P : World → Type 0} {m : Exec A} {Q : A → World → Type 0}
    {R : Exn → World → Type 0}
    → (F → Hoare e P m Q R)
    → Hoare e (λ w. F × P w) m Q R
Hoare-given h = record { at = λ w (f, p). (h f).at w p }

-- A predicate that is kept, whether the action returns or raises.
pub Keeps-world :
    {A : Type 0} {e : Env} {P : World → Type 0} {m : Exec A}
    → Keeps e P m
    → (w : World) → P w
    → P (m e w).1
Keeps-world {A} {e} {P} {m} h w p = go (m e w) (h.at w p)
  where
    go : (o : Result A × World) → Post (λ _. P) (λ _. P) o → P o.1
    go (ok a, v) q = q
    go (err x, v) q = q

-- What is raised may be left open.
pub Keeps-gives :
    {A : Type 0} {e : Env} {P : World → Type 0} {m : Exec A}
    → Keeps e P m
    → Hoare e P m (λ _. P) (λ _ _. Unit {0})
Keeps-gives h = Hoare-weaken h (λ w p. p) (λ a w p. p) (λ x w p. tt)
