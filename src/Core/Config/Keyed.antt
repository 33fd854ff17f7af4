-- ===== src/Core/Config/Keyed.antt =====
-- A registry whose models stand under their own names.
use llauncher.Base.{List, Option, some, String, ◌≡◌, string_eq}
use llauncher.Base.Dict.{lookup}
use llauncher.Records.{ModelConfig}
use llauncher.Host.{World, Env, ConfigFile, absent, unreadable, malformed, entries}
use llauncher.Host.Hoare.{Post, Hoare, Stable, Hoare-step, Hoare-bind, Hoare-pure}
use llauncher.Core.Config.{Registry, load, loaded, get_model}

abbrev pub IsKeyed : Registry → Type 0
IsKeyed d =
    (name : String) (config : ModelConfig) → lookup name d ≡ some config → config.name ≡ name

abbrev pub IsKeyedFile : ConfigFile → Type 0
IsKeyedFile absent = Unit {0}
IsKeyedFile unreadable = Unit {0}
IsKeyedFile malformed = Unit {0}
IsKeyedFile (entries d) = IsKeyed d

abbrev pub Keyed : World → Type 0
Keyed w = IsKeyedFile w.config

abbrev pub Named : String → Option ModelConfig → Type 0
Named name found = (config : ModelConfig) → found ≡ some config → config.name ≡ name

none-Keyed : IsKeyed List.[]
unfolding lookup
none-Keyed name config h = cc

module _ {e : Env} {P : World → Type 0} (s : Stable e (λ w. Keyed w × P w)) where
  -- The model that is found has the name that was asked for.
  pub Hoare-get_model :
      (name : String)
      → Hoare e
          (λ w. Keyed w × P w)
          (get_model name)
          (λ found w. Named name found × (Keyed w × P w))
          (λ _ _. Unit {0})
  unfolding get_model load
  Hoare-get_model name =
      Hoare-bind {Q = λ d w. IsKeyed d × (Keyed w × P w)} _ _
        (Hoare-step (λ e w. (loaded w.config, w)) s (λ w p. go w.config w p.0 p))
        (λ d. Hoare-pure _ (λ w (k, p). (k name, p)))
    where
      go :
          (c : ConfigFile) (w : World)
          → IsKeyedFile c
          → Keyed w × P w
          → Post {A = Registry} (λ d w. IsKeyed d × (Keyed w × P w)) (λ _ _. Unit {0}) (loaded c, w)
      go absent w k p = (none-Keyed, p)
      go unreadable w k p = tt
      go malformed w k p = tt
      go (entries d) w k p = (k, p)
