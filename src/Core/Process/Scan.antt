-- ===== src/Core/Process/Scan.antt =====
-- llauncher/core/process.py: which processes are llama-servers, and which of them serves a port.
use llauncher.Base.{
  ℕ, Bool, true, false, Option, none, some, List, [], ◌∷◌, ◌++◌, ◌&&◌, ◌||◌, not, leb, any,
  contains, ◌==◌, nat_eq, if◌then◌else◌, map,
}
use llauncher.Base.Text.{Text, codes, text_eq, has_infix, lower, after_last, strip_suffix, decimal}
use llauncher.Host.{Argv, argv_gone, argv_denied, argv, Row}
use llauncher.Core.Process.Command.{split}

abbrev exe : Text
exe = codes ".exe"

-- `candidate.replace("\\", "/").rsplit("/", 1)[-1].lower()`
unfoldable pub base_name : Text → Text
base_name s = lower (after_last b'/' [] (map (λ c. if c == 92 then b'/' else c) s))

-- The two default names and the file name of the configured binary.
unfoldable pub configured_binary_names : Text → List Text
configured_binary_names path =
    let name = lower (after_last b'/' [] path) in
    let defaults = codes "llama-server" ∷ codes "llama-server.exe" ∷ [] in
    if name == [] then defaults else defaults ++ name ∷ []

unfoldable pub configured_binary_stems : Text → List Text
unfolding configured_binary_names
configured_binary_stems path = map (strip_suffix exe) (configured_binary_names path)

abbrev interpreter_names : List Text
interpreter_names = map codes (
    "py" ∷ "pyw" ∷ "sh" ∷ "bash" ∷ "zsh" ∷ "dash" ∷ "ash" ∷ "fish" ∷ "ksh" ∷ "csh" ∷ "tcsh" ∷ "cmd"
    ∷ "powershell" ∷ "pwsh" ∷ "perl" ∷ "ruby" ∷ "node" ∷ "env" ∷ "nohup" ∷ "wsl" ∷ "sudo" ∷ [])

is_digit : ℕ → Bool
is_digit c = leb b'0' c && leb c b'9'

-- `(\.\d+)?$`, of which the digits are still to come or have begun
fraction : Bool → Text → Bool
unfolding is_digit
fraction begun [] = begun
fraction begun (c ∷ s) = is_digit c && fraction true s

-- `\d*(\.\d+)?$`
version : Text → Bool
unfolding is_digit fraction
version [] = true
version (c ∷ s) = if c == b'.' then fraction false s else is_digit c && version s

-- `^pythonw?\d*(\.\d+)?$` behind the `python`
python_tail : Text → Bool
unfolding version
python_tail [] = true
python_tail (c ∷ s) = if c == b'w' then version s else version (c ∷ s)

after_prefix : Text → Text → Option Text
after_prefix [] s = some s
after_prefix (c ∷ p) [] = none
after_prefix (c ∷ p) (d ∷ s) = if c == d then after_prefix p s else none

is_python_name : Text → Bool
unfolding python_tail after_prefix
is_python_name s = elim (after_prefix (codes "python") s) [ none ↦ false | some t ↦ python_tail t ]

unfoldable pub is_cmdline_scan_candidate : Text → Text → Bool
unfolding is_python_name configured_binary_names
is_cmdline_scan_candidate path name =
    let low = lower name in
    let stem = strip_suffix exe low in
    if low == []
    then false
    else if any (λ binary. has_infix binary low) (configured_binary_names path)
    then true
    else contains stem interpreter_names || is_python_name stem

unfoldable pub matches_binary : Text → Text → Bool
unfolding base_name configured_binary_stems
matches_binary path [] = false
matches_binary path (c ∷ s) =
    contains (strip_suffix exe (base_name (c ∷ s))) (configured_binary_stems path)

is_blank : ℕ → Bool
is_blank c = c == b' ' || (leb 9 c && leb c 13)

-- `s.split()`, with the token that is being read
unfoldable pub words : Text → Text → List Text
unfolding is_blank
words token [] = if token == [] then [] else token ∷ []
words token (c ∷ s) =
    let rest = words [] s in
    let longer = words (token ++ c ∷ []) s in
    if is_blank c then (if token == [] then rest else token ∷ rest) else longer

shell_tokens : Option (List Text) → List Text
shell_tokens none = []
shell_tokens (some tokens) = tokens

unfoldable pub matches_binary_argv_element : Text → Text → Bool
unfolding matches_binary is_blank words shell_tokens
matches_binary_argv_element path element =
    if matches_binary path element
    then true
    else if not (any is_blank element)
    then false
    else any (matches_binary path) (words [] element ++ shell_tokens (split element))

unfoldable pub argv_has_binary : Text → List Text → Bool
unfolding matches_binary_argv_element
argv_has_binary path cmdline = any (matches_binary_argv_element path) cmdline

unfoldable pub is_llama_server : Text → Text → List Text → Bool
unfolding matches_binary argv_has_binary
is_llama_server path name cmdline = matches_binary path name || argv_has_binary path cmdline

port_flags : List Text
port_flags = codes "--port" ∷ codes "-p" ∷ []

next_is : Text → List Text → Bool
next_is value [] = false
next_is value (arg ∷ rest) = arg == value

-- The loop over argv: `--port N`, `-p N`, and an element that has `--port=N` or `-pN` in it.
unfoldable pub argv_names_port : ℕ → List Text → Bool
unfolding port_flags next_is
argv_names_port port [] = false
argv_names_port port (arg ∷ rest) =
    (contains arg port_flags && next_is (decimal port) rest)
    || (has_infix (codes "--port=" ++ decimal port) arg
        || (has_infix (codes "-p" ++ decimal port) arg || argv_names_port port rest))

serves : Text → ℕ → Text → Argv → Bool
unfolding is_llama_server argv_names_port
serves path port name argv_gone = false
serves path port name argv_denied = false
serves path port name (argv []) = false
serves path port name (argv (a ∷ as')) =
    is_llama_server path name (a ∷ as') && argv_names_port port (a ∷ as')

-- The pid of the first process that serves the port.
unfoldable pub find_server_by_port : Text → ℕ → List Row → Option ℕ
unfolding serves is_cmdline_scan_candidate
find_server_by_port path port [] = none
find_server_by_port path port (row ∷ rows) =
    if is_cmdline_scan_candidate path row.name && serves path port row.name row.cmdline
    then some row.pid
    else find_server_by_port path port rows
