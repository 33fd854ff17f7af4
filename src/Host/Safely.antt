-- ===== src/Host/Safely.antt =====
-- Actions that always return, and keep a predicate; and the machine's clock, which is ours alone.
use llauncher.Base.{Bool, List, [], ◌∷◌, ◌≡◌, refl, if◌then◌else◌}
use llauncher.Host.State.{World, Env, Act, apply_acts}
use llauncher.Host.Monad.{err, Result, Exn, ok, Exec, meet, pure, reads, ◌>>=◌, ◌>>◌}
use llauncher.Host.Hoare.{
  Post, Hoare, Stable, Hoare-pure, Hoare-step, Hoare-if, Hoare-bind, Hoare-then, Hoare-weaken,
}

abbrev pub Safely : {A : Type 0} → Env → (World → Type 0) → Exec A → Type 0
Safely e P m = Hoare e P m (λ _. P) (λ _ _. ⊥)

module _ {A : Type 0} {e : Env} {P : World → Type 0} where
  pub Safely-pure : (a : A) → Safely e P (pure a)
  Safely-pure a = Hoare-pure a (λ w p. p)

  pub Safely-reads : (f : Env → World → A) → Stable e P → Safely e P (reads f)
  Safely-reads f s = Hoare-step (λ e w. (ok (f e w), w)) s (λ w p. p)

  pub Safely-if :
      (b : Bool) (m n : Exec A) → Safely e P m → Safely e P n → Safely e P (if b then m else n)
  Safely-if b m n hm hn = Hoare-if b m n (λ _. hm) (λ _. hn)

  -- An action that always returns meets any condition on what it raises.
  pub Safely-Hoare : {R : Exn → World → Type 0} {m : Exec A} → Safely e P m → Hoare e P m (λ _. P) R
  Safely-Hoare h = Hoare-weaken h (λ w p. p) (λ a w p. p) (λ x w. elim [ ])

  pub Safely-weak :
      {Q : A → World → Type 0} {R : Exn → World → Type 0} {m : Exec A}
      → Hoare e P m Q (λ _ _. ⊥)
      → Hoare e P m Q R
  Safely-weak h = Hoare-weaken h (λ w p. p) (λ a w p. p) (λ x w. elim [ ])

module _ {A B : Type 0} {e : Env} {P : World → Type 0} {S : B → World → Type 0}
    {R : Exn → World → Type 0} where
  pub Safely-bind :
      (m : Exec A) (f : A → Exec B)
      → Safely e P m
      → ((a : A) → Hoare e P (f a) S R)
      → Hoare e P (m >>= f) S R
  Safely-bind m f hm hf = Hoare-bind m f (Safely-Hoare hm) hf

  pub Safely-then :
      (m : Exec A) (n : Exec B) → Safely e P m → Hoare e P n S R → Hoare e P (m >> n) S R
  Safely-then m n hm hn = Hoare-then m n (Safely-Hoare hm) hn

-- The other processes do not reach our processes and our clock.
apply_acts-machine : (l : List Act) (w : World) → (apply_acts l w).machine ≡ w.machine
unfolding apply_acts
apply_acts-machine [] w = refl
apply_acts-machine (Act.write_lock p l ∷ as') w = apply_acts-machine as' _
apply_acts-machine (Act.drop_lock p ∷ as') w = apply_acts-machine as' _
apply_acts-machine (Act.take_mark p m ∷ as') w = apply_acts-machine as' _
apply_acts-machine (Act.drop_mark p ∷ as') w = apply_acts-machine as' _
apply_acts-machine (Act.cancel_mark p m ∷ as') w = apply_acts-machine as' _
apply_acts-machine (Act.edit_config c ∷ as') w = apply_acts-machine as' _

pub meet-machine : (e : Env) (w : World) → (meet e w).machine ≡ w.machine
unfolding meet
meet-machine e w = apply_acts-machine (e.acts w.tick) w

pub Safely-value :
    {A : Type 0} {e : Env} {P : World → Type 0} {m : Exec A}
    → Safely e P m
    → (w : World) → P w
    → (a : A) × ((m e w).0 ≡ ok a)
Safely-value {A} {e} {P} {m} h w p = go (m e w) (h.at w p)
  where
    go : (o : Result A × World) → Post (λ _. P) (λ _ _. ⊥) o → (a : A) × (o.0 ≡ ok a)
    go (ok a, v) q = (a, refl)
    go (err x, v) q = elim q [ ]
