-- ===== src/Core/AgentToken/Settled.antt =====
-- What a resolution of the token does to agent.env, and what one after it resolves to.
use llauncher.Base.{
  arith, false, Bool, Bool-cases, true, Option, none, some, ◌==◌, ◌≡◌, refl, sym, ap, ◌∙◌, ◌⊎◌, inl,
  inr,
}
use llauncher.Base.Text.{Text, codes, text_eq}
use llauncher.Base.Lines.{strip}
use llauncher.Core.AgentToken.{
  Resolution, is_empty, strip_bom, read_stdin_token, resolve_in_file, resolve_env,
  resolve_agent_token, read_env_file_token, persist_token,
}
use llauncher.Core.AgentToken.Stripped.{UrlSafe}
use llauncher.Core.AgentToken.Rewritten.{resolve_in_file-read}

abbrev pub is_unresolved : Resolution → Bool
is_unresolved Resolution.unresolved = true
is_unresolved _ = false

-- A resolution leaves the file alone, and finds no token only if it may not generate one; or it may
-- generate one, which it returns and writes.
abbrev pub Settles : Text → Bool → Option Text → Resolution × Option Text → Type 0
Settles generated allow file r =
    ((r.1 ≡ file) × ((allow ≡ true) → is_unresolved r.0 ≡ false))
    ⊎ ((allow ≡ true) × (r ≡ (Resolution.token generated, some (persist_token generated file))))

read_stdin_token-found : (stdin : Text) → is_unresolved (read_stdin_token stdin) ≡ false
unfolding read_stdin_token
read_stdin_token-found stdin = elim (Bool-cases (is_empty (strip_bom (strip stdin)))) [
  | inl h ↦ rw h refl
  | inr h ↦ rw h refl
]

module _ (stdin generated : Text) (allow : Bool) (file : Option Text) where
  resolve_in_file-Settles :
      (found : Option Text)
      → Settles generated allow file (resolve_in_file stdin generated allow file found)
  unfolding resolve_in_file
  resolve_in_file-Settles (some existing) = inl (refl, λ a. refl)
  resolve_in_file-Settles none = elim (Bool-cases allow) [
    | inl h ↦ rw h (inr (refl, refl))
    | inr h ↦ rw h (inl (refl, λ a. ground (arith, a)))
  ]

  resolve_env-Settles :
      (value : Text) → Settles generated allow file (resolve_env stdin generated allow value file)
  unfolding resolve_env
  resolve_env-Settles value = elim (Bool-cases (value == codes "-")) [
    | inl h ↦ rw h (inl (refl, λ a. read_stdin_token-found stdin))
    | inr h ↦ rw h (elim (Bool-cases (is_empty value)) [
      | inl q ↦ rw q (resolve_in_file-Settles (read_env_file_token file))
      | inr q ↦ rw q (inl (refl, λ a. refl))
    ])
  ]

  pub resolve_agent_token-Settles :
      (env_value : Option Text)
      → Settles generated allow file (resolve_agent_token stdin generated allow env_value file)
  unfolding resolve_agent_token
  resolve_agent_token-Settles none = resolve_in_file-Settles (read_env_file_token file)
  resolve_agent_token-Settles (some value) = resolve_env-Settles (strip_bom value)

module _ (stdin generated generated' : Text) (allow allow' : Bool) (file file' : Option Text)
    (t : Text) (safe : UrlSafe generated) where
  resolve_in_file-again :
      resolve_in_file stdin generated allow file (read_env_file_token file)
        ≡ (Resolution.token t, file')
      → resolve_in_file stdin generated' allow' file' (read_env_file_token file')
        ≡ (Resolution.token t, file')
  unfolding resolve_in_file
  resolve_in_file-again h = ap (resolve_in_file stdin generated' allow' file') (
      resolve_in_file-read stdin generated allow file file' t (read_env_file_token file) safe refl
        h)

  resolve_env-again :
      (value : Text)
      → resolve_env stdin generated allow value file ≡ (Resolution.token t, file')
      → resolve_env stdin generated' allow' value file' ≡ (Resolution.token t, file')
  unfolding resolve_env
  resolve_env-again value = elim (Bool-cases (value == codes "-")) [
    | inl h ↦ rw h (λ q. ap (λ f. (read_stdin_token stdin, f)) (sym (ap (λ r. r.1) q)) ∙ q)
    | inr h ↦ rw h (elim (Bool-cases (is_empty value)) [
      | inl b ↦ rw b resolve_in_file-again
      | inr b ↦ rw b (λ q. ap (λ f. (Resolution.token value, f)) (sym (ap (λ r. r.1) q)) ∙ q)
    ])
  ]

  -- The environment and stdin as before, any token generated or none: the same token.
  pub resolve_agent_token-again :
      (env_value : Option Text)
      → resolve_agent_token stdin generated allow env_value file ≡ (Resolution.token t, file')
      → resolve_agent_token stdin generated' allow' env_value file' ≡ (Resolution.token t, file')
  unfolding resolve_agent_token
  resolve_agent_token-again none = resolve_in_file-again
  resolve_agent_token-again (some value) = resolve_env-again (strip_bom value)
