-- ===== src/Host/Frame.antt =====
-- The rules by which `search` proves that an action keeps a predicate, or returns values of a kind.
use llauncher.Base.{Bool, if◌then◌else◌}
use llauncher.Host.State.{World, Env}
use llauncher.Host.Monad.{Exn, Result, ok, Exec, pure, raise, reads, attempt, ◌>>=◌, ◌>>◌, finally}
use llauncher.Host.Hoare.{
  Keeps, Returns, Stable, Post, Hoare-pure, Hoare-raise, Hoare-step, Hoare-if, Hoare-attempt,
  Hoare-bind, Hoare-then, Hoare-finally, Hoare-any,
}

module _ {A : Type 0} {e : Env} {P : World → Type 0} where
  pub Keeps-pure : (a : A) → Keeps e P (pure a)
  Keeps-pure a = Hoare-pure a (λ w p. p)

  pub Keeps-raise : (x : Exn) → Keeps e P (raise {A = A} x)
  Keeps-raise x = Hoare-raise x (λ w p. p)

  pub Keeps-if :
      (b : Bool) (m n : Exec A) → Keeps e P m → Keeps e P n → Keeps e P (if b then m else n)
  Keeps-if b m n hm hn = Hoare-if b m n (λ _. hm) (λ _. hn)

  pub Keeps-reads : (f : Env → World → A) → Stable e P → Keeps e P (reads f)
  Keeps-reads f s = Hoare-step (λ e w. (ok (f e w), w)) s (λ w p. p)

  pub Keeps-finally :
      (m : Exec A) (f : Exec (Unit {0})) → Keeps e P m → Keeps e P f → Keeps e P (finally m f)
  Keeps-finally m f hm hf = Hoare-finally m f hm (λ _. hf) (λ _. hf)

module _ {A B : Type 0} {e : Env} {P : World → Type 0} where
  pub Keeps-attempt :
      (m : Exec A) (body : A → Exec B) (handler : Exn → Exec B)
      → Keeps e P m
      → ((a : A) → Keeps e P (body a))
      → ((x : Exn) → Keeps e P (handler x))
      → Keeps e P (attempt m body handler)
  Keeps-attempt m body handler = Hoare-attempt m body handler

  pub Keeps-bind :
      (m : Exec A) (f : A → Exec B)
      → Keeps e P m
      → ((a : A) → Keeps e P (f a))
      → Keeps e P (m >>= f)
  Keeps-bind m f = Hoare-bind m f

  pub Keeps-then : (m : Exec A) (n : Exec B) → Keeps e P m → Keeps e P n → Keeps e P (m >> n)
  Keeps-then m n = Hoare-then m n

pub ruleset keeps_rules = (
  Keeps-pure, Keeps-raise, Keeps-if, Keeps-reads, Keeps-finally, Keeps-attempt, Keeps-bind,
  Keeps-then,
)

module _ {A : Type 0} {e : Env} {Q : A → Type 0} where
  pub Returns-pure : (a : A) → Q a → Returns e Q (pure a)
  Returns-pure a q = Hoare-pure a (λ w p. q)

  pub Returns-raise : (x : Exn) → Returns e Q (raise x)
  Returns-raise x = Hoare-raise x (λ w p. p)

  pub Returns-if :
      (b : Bool) (m n : Exec A) → Returns e Q m → Returns e Q n → Returns e Q (if b then m else n)
  Returns-if b m n hm hn = Hoare-if b m n (λ _. hm) (λ _. hn)

  pub Returns-finally :
      (m : Exec A) (f : Exec (Unit {0})) → Returns e Q m → Returns e Q (finally m f)
  Returns-finally m f hm =
      Hoare-finally {Q' = λ a _. Q a} {R' = λ _ _. Unit {0}} m f hm
        (λ a. record { at = λ w q. go a q (f e w) }) (λ x. Hoare-any f)
    where
      go : (a : A) → Q a → (o : Result (Unit {0}) × World) → Post (λ _ _. Q a) (λ _ _. Unit {0}) o
      go a q (ok _, w) = q
      go a q (Result.err x, w) = tt

module _ {A B : Type 0} {e : Env} {Q : B → Type 0} where
  pub Returns-attempt :
      (m : Exec A) (body : A → Exec B) (handler : Exn → Exec B)
      → ((a : A) → Returns e Q (body a))
      → ((x : Exn) → Returns e Q (handler x))
      → Returns e Q (attempt m body handler)
  Returns-attempt m body handler = Hoare-attempt m body handler (Hoare-any m)

  pub Returns-bind :
      (m : Exec A) (f : A → Exec B) → ((a : A) → Returns e Q (f a)) → Returns e Q (m >>= f)
  Returns-bind m f = Hoare-bind m f (Hoare-any m)

  pub Returns-then : (m : Exec A) (n : Exec B) → Returns e Q n → Returns e Q (m >> n)
  Returns-then m n = Hoare-then m n (Hoare-any m)

pub ruleset returns_rules = (
  Returns-pure, Returns-raise, Returns-if, Returns-finally, Returns-attempt, Returns-bind,
  Returns-then,
)
