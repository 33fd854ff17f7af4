-- ===== src/Core/Process/Roster.antt =====
-- llauncher/core/process.py: the llama-servers of the machine, by a walk over the process table and by
-- the pid of a claim. `int` of an argument is given, and so are the start times. The cache of the walk
-- is left out.
pub mod Agreed
use llauncher.Base.{
  ℕ, Bool, true, false, ◌&&◌, ◌||◌, Option, none, some, List, [], ◌∷◌, nat_eq, ◌==◌, if◌then◌else◌,
}
use llauncher.Base.Text.{Text, codes, text_eq}
use llauncher.Host.{Argv, argv_gone, argv_denied, argv, Row, Sight}
use llauncher.Core.Process.Scan.{is_cmdline_scan_candidate, is_llama_server}

pub record ServerProcessInfo : Type 0 where
  pub pid : ℕ
  pub port : Option ℕ
  pub alias : Option Text
  pub model_path : Option Text
  pub create_time : Option ℕ
  pub cmdline_unreadable : Bool

abbrev pub unreadable : ℕ → ServerProcessInfo
unreadable pid = record {
  pid = pid;
  port = none;
  alias = none;
  model_path = none;
  create_time = none;
  cmdline_unreadable = true;
}

-- The first flag that has a value behind it decides.
unfoldable pub extract_flag_value : Text → List Text → Option Text
extract_flag_value flag [] = none
extract_flag_value flag (arg ∷ []) = none
extract_flag_value flag (arg ∷ value ∷ rest) =
    let later = extract_flag_value flag (value ∷ rest) in if arg == flag then some value else later

number_of : (Text → Option ℕ) → Option Text → Option ℕ
number_of to_int none = none
number_of to_int (some value) = to_int value

unfoldable pub extract_port_from_cmdline : (Text → Option ℕ) → List Text → Option ℕ
unfolding extract_flag_value number_of
extract_port_from_cmdline to_int cmdline =
    number_of to_int (extract_flag_value (codes "--port") cmdline)

-- `a or b`
or_flag : Option Text → Option Text → Option Text
or_flag none other = other
or_flag (some []) other = other
or_flag (some (c ∷ value)) other = some (c ∷ value)

module _ (path : Text) (to_int : Text → Option ℕ) (created : ℕ → Option ℕ) where
  unfoldable pub info_of : ℕ → List Text → ServerProcessInfo
  unfolding extract_port_from_cmdline extract_flag_value or_flag
  info_of pid cmdline = record {
    pid = pid;
    port = extract_port_from_cmdline to_int cmdline;
    alias = extract_flag_value (codes "--alias") cmdline;
    model_path =
        or_flag (extract_flag_value (codes "-m") cmdline)
          (extract_flag_value (codes "--model") cmdline);
    create_time = created pid;
    cmdline_unreadable = false;
  }

  -- Whether the port of the command line is the one that is expected.
  abbrev fits : Option ℕ → Option ℕ → Bool
  fits none port = true
  fits (some expected) none = false
  fits (some expected) (some port) = port == expected

  verify_argv : ℕ → Option ℕ → Text → Argv → Option ServerProcessInfo
  unfolding is_llama_server info_of
  verify_argv pid expect_port name argv_gone = none
  verify_argv pid expect_port name argv_denied = some (unreadable pid)
  verify_argv pid expect_port name (argv cmdline) =
      if is_llama_server path name cmdline
      then if fits expect_port (extract_port_from_cmdline to_int cmdline)
        then some (info_of pid cmdline)
        else none
      else none

  -- A pid with what psutil shows of it.
  unfoldable pub verify_pid : ℕ → Option ℕ → Sight → Text → Argv → Option ServerProcessInfo
  unfolding verify_argv
  verify_pid pid expect_port Sight.gone name cmdline = none
  verify_pid pid expect_port Sight.zombie name cmdline = none
  verify_pid pid expect_port Sight.denied name cmdline = some (unreadable pid)
  verify_pid pid expect_port Sight.running name cmdline = verify_argv pid expect_port name cmdline

  discover_argv : ℕ → Text → Argv → List ServerProcessInfo → List ServerProcessInfo
  unfolding is_llama_server info_of
  discover_argv pid name argv_gone later = later
  discover_argv pid name argv_denied later =
      if is_llama_server path name [] then unreadable pid ∷ later else later
  discover_argv pid name (argv []) later = later
  discover_argv pid name (argv (a ∷ args)) later =
      if is_llama_server path name (a ∷ args) then info_of pid (a ∷ args) ∷ later else later

  unfoldable pub discover_all : List Row → List ServerProcessInfo
  unfolding is_cmdline_scan_candidate discover_argv
  discover_all [] = []
  discover_all (row ∷ rows) =
      let rest = discover_all rows in
      if is_cmdline_scan_candidate path row.name
      then discover_argv row.pid row.name row.cmdline rest
      else rest

matched : Text → Text → Argv → Bool
unfolding is_llama_server
matched path name (argv (a ∷ args)) = is_llama_server path name (a ∷ args)
matched path name _ = false

-- The pids of the servers whose command lines can be read.
unfoldable pub find_all_llama_servers : Text → List Row → List ℕ
unfolding is_cmdline_scan_candidate matched
find_all_llama_servers path [] = []
find_all_llama_servers path (row ∷ rows) =
    let rest = find_all_llama_servers path rows in
    if is_cmdline_scan_candidate path row.name && matched path row.name row.cmdline
    then row.pid ∷ rest
    else rest
