-- ===== src/Api/Routes.antt =====
-- internal/api/server.go: the table of Router, and cors. A path is the list of its segments, and
-- chi takes the route whose pattern has the method and the segments; a parameter is not empty.
use forge_queue.Prelude.{
  String, str_eq, Bool, true, false, if◌then◌else◌, Option, none, some, List, [], ◌∷◌,
}

pub data Method : Type 0 where
  get post delete options : Method

abbrev pub same_method : Method → Method → Bool
same_method get get = true
same_method post post = true
same_method delete delete = true
same_method options options = true
same_method _ _ = false

-- The handlers of the table.
pub data Target : Type 0 where
  healthz readyz metrics : Target
  submit_job_target list_jobs_target get_job_target cancel_job_target : Target
  queue_stats_target list_dlq_target requeue_dlq_target events_target : Target
  list_schedules_target create_schedule_target : Target
  pause_schedule_target resume_schedule_target delete_schedule_target : Target

pub data Segment : Type 0 where
  fixed : String → Segment
  param : Segment

pub record Entry : Type 0 where
  pub method : Option Method  -- `none`: r.Handle, every method
  pub pattern : List Segment
  pub target : Target

abbrev v1 : Method → List Segment → Target → Entry
v1 m pattern target = record { method = some m; pattern = fixed "v1" ∷ pattern; target = target }

abbrev pub router : List Entry
router =
    record { method = some get; pattern = fixed "healthz" ∷ []; target = healthz }
    ∷ record { method = some get; pattern = fixed "readyz" ∷ []; target = readyz }
    ∷ record { method = none; pattern = fixed "metrics" ∷ []; target = metrics }
    ∷ v1 post (fixed "jobs" ∷ []) submit_job_target
    ∷ v1 get (fixed "jobs" ∷ []) list_jobs_target
    ∷ v1 get (fixed "jobs" ∷ param ∷ []) get_job_target
    ∷ v1 post (fixed "jobs" ∷ param ∷ fixed "cancel" ∷ []) cancel_job_target
    ∷ v1 get (fixed "queues" ∷ param ∷ fixed "stats" ∷ []) queue_stats_target
    ∷ v1 get (fixed "dlq" ∷ []) list_dlq_target
    ∷ v1 post (fixed "dlq" ∷ param ∷ fixed "requeue" ∷ []) requeue_dlq_target
    ∷ v1 get (fixed "events" ∷ []) events_target
    ∷ v1 get (fixed "schedules" ∷ []) list_schedules_target
    ∷ v1 post (fixed "schedules" ∷ []) create_schedule_target
    ∷ v1 post (fixed "schedules" ∷ param ∷ fixed "pause" ∷ []) pause_schedule_target
    ∷ v1 post (fixed "schedules" ∷ param ∷ fixed "resume" ∷ []) resume_schedule_target
    ∷ v1 delete (fixed "schedules" ∷ param ∷ []) delete_schedule_target
    ∷ []

-- The parameters of a path that has the pattern.
unfoldable pub captured : List Segment → List String → Option (List String)
captured [] [] = some []
captured [] (s ∷ path) = none
captured (p ∷ pattern) [] = none
captured (fixed word ∷ pattern) (s ∷ path) =
    let rest = captured pattern path in if str_eq word s then rest else none
captured (param ∷ pattern) (s ∷ path) =
    let rest = captured pattern path in
    if str_eq s "" then none else elim rest [ none ↦ none | some params ↦ some (s ∷ params) ]

abbrev pub allows : Option Method → Method → Bool
allows none m = true
allows (some n) m = same_method n m

-- The first route of a table that a request has.
unfoldable pub find_route : List Entry → Method → List String → Option (Target × List String)
unfolding captured
find_route [] m path = none
find_route (entry ∷ entries) m path =
    let rest = find_route entries m path in
    if allows entry.method m
    then elim (captured entry.pattern path) [
      | none ↦ rest
      | some params ↦ some (entry.target, params)
    ]
    else rest

-- What becomes of a request: cors answers OPTIONS itself.
pub data Dispatch : Type 0 where
  preflight : Dispatch
  routed : Target → List String → Dispatch
  unrouted : Dispatch

abbrev pub or_unrouted : Option (Target × List String) → Dispatch
or_unrouted none = unrouted
or_unrouted (some (target, params)) = routed target params

unfoldable pub dispatch : Method → List String → Dispatch
unfolding find_route
dispatch m path =
    if same_method m options then preflight else or_unrouted (find_route router m path)
