-- ===== src/Host/Monad.antt =====
-- Python code with effects: it returns or raises, and what it wrote before it raised stays.
use llauncher.Base.{ℕ, suc, Bool, true, false}
use llauncher.Host.State.{World, Env, Machine, apply_acts}

-- The exceptions that the program raises or catches.
pub data Exn : Type 0 where
  os_error file_not_found file_exists access_denied no_such_process : Exn
  extra_args_error json_error value_error key_error out_of_fuel : Exn
  unlink_error overflow_error : Exn

-- `FileNotFoundError` and `FileExistsError` are kinds of `OSError`, and so is `unlink_error`, by
-- which an `unlink` fails on a file that is there.
abbrev pub is_os_error : Exn → Bool
is_os_error Exn.os_error = true
is_os_error Exn.file_not_found = true
is_os_error Exn.file_exists = true
is_os_error Exn.unlink_error = true
is_os_error _ = false

pub data Result (A : Type 0) : Type 0 where
  ok : A → Result A
  err : Exn → Result A

abbrev pub Exec : Type 0 → Type 0
Exec A = Env → World → Result A × World

-- Before each step of ours the other processes do theirs.
unfoldable pub meet : Env → World → World
unfolding apply_acts
meet e w = record (apply_acts (e.acts w.tick) w) { tick = suc w.tick }

module _ {A : Type 0} where
  abbrev pub pure : A → Exec A
  pure a e w = (ok a, w)

  abbrev pub raise : Exn → Exec A
  raise x e w = (err x, w)

  -- One atomic step, after those of the others.
  abbrev pub step : (Env → World → Result A × World) → Exec A
  step f e w = f e (meet e w)

  -- A step that reads.
  abbrev pub reads : (Env → World → A) → Exec A
  reads f = step (λ e w. (ok (f e w), w))

  -- A step on the processes of the machine, which leaves the shared files alone.
  abbrev pub on_machine : (Env → ℕ → Machine → Result A × Machine) → Exec A
  on_machine f = step (λ e w. let (r, m) = f e w.tick w.machine in (r, record w { machine = m }))

module _ {A B : Type 0} where
  -- `try: a = m  except: handler  else: body`, where the handler re-raises what it does not catch
  abbrev pub continue : (A → Exec B) → (Exn → Exec B) → Result A → Exec B
  continue body handler (ok a) = body a
  continue body handler (err x) = handler x

  unfoldable pub attempt : Exec A → (A → Exec B) → (Exn → Exec B) → Exec B
  attempt m body handler e w = let (r, w') = m e w in continue body handler r e w'

  infixl 10 ◌>>=◌ ◌>>◌
  unfoldable pub ◌>>=◌ : Exec A → (A → Exec B) → Exec B
  unfolding attempt
  m >>= f = attempt m f raise

  unfoldable pub ◌>>◌ : Exec A → Exec B → Exec B
  unfolding ◌>>=◌
  m >> n = m >>= λ _. n

module _ {A : Type 0} where
  -- `try: m  finally: f`
  unfoldable pub finally : Exec A → Exec (Unit {0}) → Exec A
  unfolding ◌>>◌
  finally m f = attempt m (λ a. f >> pure a) (λ x. f >> raise x)
