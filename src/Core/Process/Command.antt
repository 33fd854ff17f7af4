-- ===== src/Core/Process/Command.antt =====
-- llauncher/core/process.py, `build_command`: the argv of a llama-server, with the flags that
-- `extra_args` may not carry. `split` is Python's `shlex.split`.
pub mod Allowed
use llauncher.Base.{
  ℕ, Bool, true, false, Option, none, some, List, [], ◌∷◌, ◌++◌, ◌||◌, ltb, any, contains, ◌==◌,
  nat_eq, string_eq, String, if◌then◌else◌,
}
use llauncher.Base.Text.{Text, codes, text_eq, before, decimal}
use llauncher.Records.{ModelConfig}
use llauncher.Host.{Exn, Result, ok, err}

-- Where `shlex` stands: between tokens, in a word, in quotes, or behind a backslash.
pub data Mode : Type 0 where
  outside word single double escaped escaped_double : Mode

is_space : ℕ → Bool
is_space c = c == b' ' || c == 9 || c == 13 || c == 10

-- A token that is empty counts only if it was quoted.
emit : Text → Bool → Option (List Text) → Option (List Text)
emit token quoted none = none
emit [] false (some rest) = some rest
emit [] true (some rest) = some ([] ∷ rest)
emit (c ∷ token) quoted (some rest) = some ((c ∷ token) ∷ rest)

split_from : Mode → Text → Bool → Text → Option (List Text)
unfolding is_space emit
split_from Mode.outside token quoted [] = some []
split_from Mode.word token quoted [] = emit token quoted (some [])
split_from Mode.single token quoted [] = none
split_from Mode.double token quoted [] = none
split_from Mode.escaped token quoted [] = none
split_from Mode.escaped_double token quoted [] = none
split_from Mode.outside token quoted (c ∷ s) =
    let again = split_from Mode.outside [] false s in
    let behind = split_from Mode.escaped [] false s in
    let in_single = split_from Mode.single [] false s in
    let in_double = split_from Mode.double [] false s in
    let in_word = split_from Mode.word (c ∷ []) false s in
    if is_space c
    then again
    else if c == 92
    then behind
    else if c == 39
    then in_single
    else if c == 34
    then in_double
    else in_word
split_from Mode.word token quoted (c ∷ s) =
    let again = split_from Mode.outside [] false s in
    let behind = split_from Mode.escaped token quoted s in
    let in_single = split_from Mode.single token true s in
    let in_double = split_from Mode.double token true s in
    let in_word = split_from Mode.word (token ++ c ∷ []) quoted s in
    if is_space c
    then emit token quoted again
    else if c == 39
    then in_single
    else if c == 34
    then in_double
    else if c == 92
    then behind
    else in_word
split_from Mode.single token quoted (c ∷ s) =
    let in_word = split_from Mode.word token true s in
    let in_single = split_from Mode.single (token ++ c ∷ []) true s in
    if c == 39 then in_word else in_single
split_from Mode.double token quoted (c ∷ s) =
    let in_word = split_from Mode.word token true s in
    let behind = split_from Mode.escaped_double token true s in
    let in_double = split_from Mode.double (token ++ c ∷ []) true s in
    if c == 34 then in_word else if c == 92 then behind else in_double
split_from Mode.escaped token quoted (c ∷ s) = split_from Mode.word (token ++ c ∷ []) quoted s
split_from Mode.escaped_double token quoted (c ∷ s) =
    let kept = if c == 92 || c == 34 then c ∷ [] else 92 ∷ c ∷ [] in
    split_from Mode.double (token ++ kept) true s

-- `shlex.split(s)`, `none` where it raises `ValueError`.
unfoldable pub split : Text → Option (List Text)
unfolding split_from
split s = split_from Mode.outside [] false s

abbrev pub denied_extra_arg_flags : List Text
denied_extra_arg_flags =
    codes "--api-key"
    ∷ codes "--alias"
    ∷ codes "-m"
    ∷ codes "--model"
    ∷ codes "--host"
    ∷ codes "--port"
    ∷ codes "--metrics"
    ∷ codes "--slots"
    ∷ codes "--no-slots"
    ∷ []

unfoldable pub is_denied : Text → Bool
is_denied token = contains (before b'=' token) denied_extra_arg_flags

-- `DeniedExtraArgError` and `MalformedExtraArgsError` are kinds of `ExtraArgsError`.
unfoldable pub check_extra_args_deny_list : List Text → Result (List Text)
unfolding is_denied
check_extra_args_deny_list tokens =
    if any is_denied tokens then err Exn.extra_args_error else ok tokens

abbrev flag_with : String → Text → List Text
flag_with flag value = codes flag ∷ value ∷ []

mmproj_flags : Option String → List Text
mmproj_flags none = []
mmproj_flags (some path) = if path == "" then [] else flag_with "--mmproj" (codes path)

-- The arguments that the launcher itself emits.
unfoldable pub managed_args : Text → ModelConfig → ℕ → List Text
unfolding mmproj_flags
managed_args server_bin config port =
    server_bin
    ∷ (flag_with "-m" (codes config.model_path)
        ++ (flag_with "--alias" (codes config.name)
            ++ (mmproj_flags config.mmproj_path
                ++ (flag_with "--n-gpu-layers" (decimal config.n_gpu_layers)
                    ++ (flag_with "--host" (codes "0.0.0.0")
                        ++ (flag_with "--port" (decimal port)
                            ++ (flag_with "-c" (decimal config.ctx_size)
                                ++ ((if ltb 1 config.parallel
                                      then flag_with "--parallel" (decimal config.parallel)
                                      else [])
                                    ++ ((if config.metrics then codes "--metrics" ∷ [] else [])
                                        ++ ((if config.slots
                                              then codes "--slots"
                                              else codes "--no-slots")
                                            ∷ []))))))))))

extra_tokens : Option (List Text) → Result (List Text)
unfolding check_extra_args_deny_list
extra_tokens none = err Exn.extra_args_error
extra_tokens (some tokens) = check_extra_args_deny_list tokens

unfoldable pub extended : List Text → Result (List Text) → Result (List Text)
extended cmd (ok tokens) = ok (cmd ++ tokens)
extended cmd (err x) = err x

unfoldable pub build_command : Text → ModelConfig → ℕ → Result (List Text)
unfolding managed_args extra_tokens extended
build_command server_bin config port =
    let cmd = managed_args server_bin config port in
    if config.extra_args == ""
    then ok cmd
    else extended cmd (extra_tokens (split (codes config.extra_args)))
