-- ===== src/Main/Start.antt =====
-- main.c: what `main` does before the first turn, and the whole of it.
use sa.Prelude.{
  ℕ, Bool, true, ◌||◌, Option, none, some, List, [], ◌∷◌, ◌++◌, ltb, ◌==◌, if◌then◌else◌, length,
  false,
}
use sa.Prelude.Bytes.{Bytes, codes, equal, c_string}
use sa.Prelude.Int.{ℤ}
use sa.Json.Value.{Json}
use sa.Json.Number.{Doubles}
use sa.Session.Store.{session_rewrite, Loaded, session_load, Files, RewriteCalls}
use sa.Session.Prune.{session_prune_empty_tool_use}
use sa.Tools.Write.{print_into}
use sa.Chat.Turn.{Environment, Chat}
use sa.Prompt.Text.{strip_while}
use sa.Prompt.Skills.{scan_skills_dir, Skill, FileSystem}
use sa.Prompt.Rules.{scan_rules_dir, Rule}
use sa.Prompt.System.{build_system_prompt}
use sa.Http.Tls.{Tls}
use sa.Tools.Dispatch.{System}
use sa.Main.{say, repl, Input, environment}

-- The options, and the arguments from the first that is none on.
pub record Options : Type 0 where
  pub continue_flag : Bool
  pub json : Bool
  pub rest : List Bytes

abbrev pub is_continue : Bytes → Bool
is_continue arg = equal arg (codes "-c") || equal arg (codes "--continue")

unfoldable pub options_from : (continue_flag json : Bool) → List Bytes → Options
options_from continue_flag json [] = record {
  continue_flag = continue_flag;
  json = json;
  rest = [];
}
options_from continue_flag json (arg ∷ args) =
    let resumed = options_from true json args in
    let shown = options_from continue_flag true args in
    if is_continue arg
    then resumed
    else if equal arg (codes "--json")
    then shown
    else record { continue_flag = continue_flag; json = json; rest = arg ∷ args }

abbrev pub value_or : Bytes → Option Bytes → Bytes
value_or otherwise none = otherwise
value_or otherwise (some v) = v

unfoldable pub endpoint_url : (base : Bytes) → Bytes
endpoint_url base = print_into 1024 (strip_while (λ c. c == b'/') base ++ codes "/v1/messages")

-- `getenv` is a parameter.
abbrev pub base_url : (getenv : Bytes → Option Bytes) → Bytes
base_url getenv = value_or (codes "https://api.kimi.com/coding") (getenv (codes "KIMI_BASE_URL"))

abbrev pub model_name : (getenv : Bytes → Option Bytes) → Bytes
model_name getenv = value_or (codes "kimi-for-coding") (getenv (codes "MODEL"))

-- `snprintf(hp, sizeof hp, "%s...", home)`, or none where there is no home or it does not fit.
abbrev pub in_home : (suffix : Bytes) → Option Bytes → Option Bytes
in_home suffix none = none
in_home suffix (some home) =
    let hp = home ++ suffix in if ltb (length hp) 1024 then some hp else none

module _ (fs : FileSystem) where
  abbrev then_skills : List Skill → Option Bytes → List Skill
  then_skills skills none = skills
  then_skills skills (some dir) = scan_skills_dir fs skills dir

  abbrev then_rules : List Rule → Option Bytes → List Rule
  then_rules rules none = rules
  then_rules rules (some dir) = scan_rules_dir fs rules dir

  unfoldable pub load_skills : (home : Option Bytes) → List Skill
  load_skills home =
      then_skills (scan_skills_dir fs [] (codes "./.claude/skills"))
        (in_home (codes "/.claude/skills") home)

  unfoldable pub load_rules : (home : Option Bytes) → List Rule
  load_rules home =
      then_rules (scan_rules_dir fs [] (codes "./.claude/rules"))
        (in_home (codes "/.claude/rules") home)

-- The arguments, with a blank between two.
unfoldable pub join_args : List Bytes → Bytes
join_args [] = []
join_args (arg ∷ []) = arg
join_args (arg ∷ next ∷ args) = arg ++ b' ' ∷ join_args (next ∷ args)

module _ (d : Doubles) where
  open d use {Double}

  abbrev pub on_loaded : RewriteCalls → Files → Option (Loaded d) → Files × List (Json Double)
  on_loaded calls files none = (files, [])
  on_loaded calls files (some loaded) =
      let pruned = session_prune_empty_tool_use loaded.0 in
      (if ltb 0 pruned.1 then session_rewrite d calls files pruned.0 else files, pruned.0)

  -- The session file and the messages at the start.
  unfoldable pub resume : (continue_flag : Bool) → RewriteCalls → Files → Files × List (Json Double)
  resume continue_flag calls files =
      if continue_flag then on_loaded calls files (session_load d files []) else (files, [])

  module _ (env : Environment d.Double) (json : Bool) (model system : Bytes) where
    open env use {World, rewrites}

    -- From the messages on: one turn for the arguments, or the loop.
    unfoldable pub converse :
        (reset : World → World)
        → (args : List Bytes) → List (Input World)
        → Chat d env json
        → Chat d env json × ℕ
    converse reset [] inputs s = repl d env json model system reset inputs s
    converse reset (arg ∷ args) inputs s = say d env json model system (join_args (arg ∷ args)) s

    abbrev pub start : (continue_flag : Bool) → World → Files → Chat d env json
    start continue_flag w files =
        let resumed = resume continue_flag (rewrites w) files in
        record { world = w; messages = resumed.1; files = resumed.0; out = [] }

-- What `main` leaves, and its return value.
pub record Left (Double : Type 0) : Type 0 where
  pub messages : List (Json Double)
  pub files : Files
  pub out : Bytes
  pub code : ℕ

module _ (tls : Tls) (d : Doubles) (system : System) (atoi : Bytes → ℤ)
    (connect : Tls.Conn tls → (host port : Bytes) → Tls.Conn tls × Bool) (fuel : ℕ)
    (reset : Tls.Conn tls × System.World system → Tls.Conn tls × System.World system)
    (fs : FileSystem) (prints : Bytes → Bool) (getenv : Bytes → Option Bytes) where
  open d use {Double}

  -- The system prompt, as the string that the request gets.
  abbrev pub system_prompt : Bytes
  system_prompt =
      let home = getenv (codes "HOME") in
      c_string (build_system_prompt fs prints home (load_rules fs home) (load_skills fs home))

  abbrev pub left_of : {env : Environment Double} {json : Bool} → Chat d env json × ℕ → Left Double
  left_of (s, code) = record { messages = s.messages; files = s.files; out = s.out; code = code }

  -- From the settings on.
  unfoldable pub run :
      (api_key : Bytes)
      → Options
      → List (Input (Tls.Conn tls × System.World system))
      → Tls.Conn tls × System.World system
      → Files
      → Left Double
  run api_key options inputs w files =
      let env =
        environment tls d system options.json atoi connect fuel (endpoint_url (base_url getenv))
          api_key in
      left_of (
        converse d env options.json (model_name getenv) system_prompt reset options.rest inputs (
          start d env options.json (model_name getenv) system_prompt options.continue_flag w files))

  abbrev pub with_key :
      Option Bytes
      → (args : List Bytes) → List (Input (Tls.Conn tls × System.World system))
      → Tls.Conn tls × System.World system
      → Files
      → Left Double
  with_key none args inputs w files = record { messages = []; files = files; out = []; code = 1 }
  with_key (some api_key) args inputs w files =
      run api_key (options_from false false args) inputs w files

  -- `args` are the arguments behind the program's name.
  unfoldable pub main :
      (args : List Bytes)
      → List (Input (Tls.Conn tls × System.World system))
      → Tls.Conn tls × System.World system
      → Files
      → Left Double
  main args inputs w files = with_key (getenv (codes "KIMI_TOKEN")) args inputs w files
