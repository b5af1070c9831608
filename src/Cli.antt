-- ===== src/Cli.antt =====
-- cmd/forge-cli/main.go: what a command line asks of the API. The flag package is written out as
-- far as its FlagSets use it; json.Marshal and the segments of a path are parameters.
pub mod Routed
use forge_queue.Prelude.{
  ℕ, ◌==◌, leb, if◌then◌else◌, String, str_eq, Bool, true, false, ◌||◌, Option, none, some, List,
  [], ◌∷◌, ◌++◌, any_of,
}
use Prim.Native.Char.{Char, code}
use Prim.Native.String.{[] as empty, ◌∷◌ as ◌::◌}
use forge_queue.Api.Routes.{Method, get, post, delete}

-- A member of the body: a Go string, or text that stands in the JSON as it is.
pub data Member : Type 0 where
  quoted raw : String → Member

abbrev pub Body : Type 0
Body = List (String × Member)

-- The segments of a text in a path, and json.Marshal of a map.
pub record Http : Type 0 where
  pub segments : String → List String
  pub marshal : Body → Option String

-- What the process does: it sends one request, or ends with a usage text.
pub record Request : Type 0 where
  pub method : Method
  pub path : List String
  pub query : String
  pub body : Option String  -- `none`: no body

pub data Command : Type 0 where
  request : Request → Command
  exit : ℕ → Command

-- The values of the flags, the last set first.
abbrev pub Flags : Type 0
Flags = List (String × String)

unfoldable pub flag_value : Flags → String → String
flag_value [] name = ""
flag_value ((key, value) ∷ flags) name =
    let rest = flag_value flags name in if str_eq key name then value else rest

-- A name up to `=`, and the value after it.
unfoldable pub cut_equals : String → String × Option String
cut_equals empty = (empty, none)
cut_equals (c :: s) =
    let (name, value) = cut_equals s in if code c == 61 then (empty, some s) else (c :: name, value)

-- One or two dashes before a name; `none` is an argument that is no flag.
unfoldable pub flag_text : String → Option String
flag_text empty = none
flag_text (c :: empty) = none
flag_text (c :: d :: s) =
    if code c == 45 then (if code d == 45 then some s else some (d :: s)) else none

-- FlagSet.Parse with ExitOnError: the flags, or the status of the exit.
pub data Parsed : Type 0 where
  flags_set : Flags → Parsed
  exits : ℕ → Parsed

abbrev pub is_named : String → Flags → Bool
is_named name defaults = any_of (λ (f : String × String). str_eq f.0 name) defaults

-- What one argument is: the end of the flags, a refusal, a flag with its value, or one whose value is
-- the next argument.
pub data Argument : Type 0 where
  ends : Argument
  refuses : ℕ → Argument
  sets : String → String → Argument
  awaits : String → Argument

abbrev pub undefined_flag : String → Argument
undefined_flag name = if str_eq name "help" || str_eq name "h" then refuses 0 else refuses 2

abbrev pub is_bad_name : String → Bool
is_bad_name empty = true
is_bad_name (c :: s) = (code c == 45) || (code c == 61)

abbrev pub defined_flag : String → Option String → Argument
defined_flag name none = awaits name
defined_flag name (some value) = sets name value

unfoldable pub read_argument : Flags → String → Argument
unfolding flag_text cut_equals
read_argument flags arg = elim (flag_text arg) [
  | none ↦ ends
  | some s ↦
      if str_eq arg "--"
      then ends
      else if is_bad_name s
      then refuses 2
      else (let (name, value) = cut_equals s in
          if is_named name flags then defined_flag name value else undefined_flag name)
]

-- Parse; a flag whose value is awaited comes first.
unfoldable pub parse_flags : Flags → Option String → List String → Parsed
unfolding read_argument
parse_flags flags none [] = flags_set flags
parse_flags flags (some name) [] = exits 2
parse_flags flags (some name) (value ∷ args) = parse_flags ((name, value) ∷ flags) none args
parse_flags flags none (arg ∷ args) = elim (read_argument flags arg) [
  | ends ↦ flags_set flags
  | refuses status ↦ exits status
  | sets name value ↦ parse_flags ((name, value) ∷ flags) none args
  | awaits name ↦ parse_flags flags (some name) args
]

abbrev pub plain_request : Method → List String → String → Command
plain_request m path query =
    request (record { method = m; path = path; query = query; body = none })

-- do: an error of Marshal is dropped, and the body is empty then.
abbrev pub json_request : Http → List String → Body → Command
json_request http path body = request (record {
  method = post;
  path = path;
  query = "";
  body = elim (http.marshal body) [ none ↦ some "" | some text ↦ some text ];
})

abbrev pub submit_flags : Flags
submit_flags = ("queue", "default") ∷ ("handler", "echo") ∷ ("payload", "{}") ∷ []

unfoldable pub submit : Http → List String → Command
unfolding parse_flags flag_value
submit http args = elim (parse_flags submit_flags none args) [
  | exits status ↦ exit status
  | flags_set flags ↦ json_request http ("v1" ∷ "jobs" ∷ []) (
      ("payload", raw (flag_value flags "payload"))
      ∷ ("queue", quoted (flag_value flags "queue"))
      ∷ ("handler", quoted (flag_value flags "handler"))
      ∷ [])
]

abbrev pub ls : Command
ls = plain_request get ("v1" ∷ "jobs" ∷ []) "limit=50"

abbrev pub list_dlq_command : Command
list_dlq_command = plain_request get ("v1" ∷ "dlq" ∷ []) ""

unfoldable pub dlq : Http → List String → Command
dlq http [] = list_dlq_command
dlq http (word ∷ []) = list_dlq_command
dlq http (word ∷ id ∷ args) =
    if str_eq word "requeue"
    then plain_request post ("v1" ∷ "dlq" ∷ http.segments id ++ "requeue" ∷ []) ""
    else list_dlq_command

abbrev pub schedules : Command
schedules = plain_request get ("v1" ∷ "schedules" ∷ []) ""

abbrev pub create_flags : Flags
create_flags =
    ("name", "")
    ∷ ("cron", "")
    ∷ ("queue", "default")
    ∷ ("handler", "echo")
    ∷ ("payload", "{}")
    ∷ []

unfoldable pub create_schedule_command : Http → List String → Command
unfolding parse_flags flag_value
create_schedule_command http args = elim (parse_flags create_flags none args) [
  | exits status ↦ exit status
  | flags_set flags ↦ json_request http ("v1" ∷ "schedules" ∷ []) (
      ("name", quoted (flag_value flags "name"))
      ∷ ("cron_expr", quoted (flag_value flags "cron"))
      ∷ ("queue", quoted (flag_value flags "queue"))
      ∷ ("handler", quoted (flag_value flags "handler"))
      ∷ ("payload", raw (flag_value flags "payload"))
      ∷ [])
]

-- `pause`, `resume` and `delete` take one argument.
abbrev pub change_schedule : Http → String → List String → Command
change_schedule http word [] = exit 2
change_schedule http word (id ∷ []) =
    if str_eq word "delete"
    then plain_request delete ("v1" ∷ "schedules" ∷ http.segments id) ""
    else plain_request post ("v1" ∷ "schedules" ∷ http.segments id ++ word ∷ []) ""
change_schedule http word (id ∷ more ∷ args) = exit 2

unfoldable pub schedule : Http → List String → Command
unfolding create_schedule_command
schedule http [] = exit 2
schedule http (word ∷ args) =
    if str_eq word "create"
    then create_schedule_command http args
    else if str_eq word "pause" || (str_eq word "resume" || str_eq word "delete")
    then change_schedule http word args
    else exit 2

-- main, on the arguments after the program's name.
unfoldable pub main : Http → List String → Command
unfolding submit dlq schedule
main http [] = exit 2
main http (word ∷ args) =
    if str_eq word "submit"
    then submit http args
    else if str_eq word "ls"
    then ls
    else if str_eq word "dlq"
    then dlq http args
    else if str_eq word "schedules"
    then schedules
    else if str_eq word "schedule"
    then schedule http args
    else exit 2

-- The exit status of do by the status of the answer.
abbrev pub exit_status : ℕ → ℕ
exit_status status = if leb 300 status then 1 else 0
