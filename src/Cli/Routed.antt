-- ===== src/Cli/Routed.antt =====
-- The requests of cmd/forge-cli/main.go against the table of Router in internal/api/server.go.
use forge_queue.Prelude.{
  ◌≡◌, refl, if◌then◌else◌, String, str_eq, eq_iff, Bool, true, false, ◌||◌, Option, none, some,
  List, [], ◌∷◌, ◌++◌, Bool-cases, inl, inr, sym, subst,
}
use forge_queue.Api.Routes.{
  post, delete, Target, submit_job_target, list_jobs_target, requeue_dlq_target, list_dlq_target,
  list_schedules_target, create_schedule_target, pause_schedule_target, resume_schedule_target,
  delete_schedule_target, dispatch, find_route, captured, or_unrouted, routed,
}
use forge_queue.Cli.{
  Http, Command, request, exit, Flags, Parsed, flags_set, exits, Body, submit, submit_flags,
  create_flags, dlq, schedule, change_schedule, create_schedule_command, main, parse_flags,
  plain_request, json_request, list_dlq_command,
}

-- What the words of a command line name.
abbrev schedule_target : List String → Option (Target × List String)
schedule_target [] = none
schedule_target (word ∷ []) =
    if str_eq word "create" then some (create_schedule_target, []) else none
schedule_target (word ∷ id ∷ args) =
    if str_eq word "create"
    then some (create_schedule_target, [])
    else if str_eq word "pause"
    then some (pause_schedule_target, id ∷ [])
    else if str_eq word "resume"
    then some (resume_schedule_target, id ∷ [])
    else if str_eq word "delete"
    then some (delete_schedule_target, id ∷ [])
    else none

abbrev dlq_target : List String → Option (Target × List String)
dlq_target (word ∷ id ∷ args) =
    if str_eq word "requeue" then some (requeue_dlq_target, id ∷ []) else some (list_dlq_target, [])
dlq_target _ = some (list_dlq_target, [])

abbrev pub intended : List String → Option (Target × List String)
intended [] = none
intended (word ∷ args) =
    if str_eq word "submit"
    then some (submit_job_target, [])
    else if str_eq word "ls"
    then some (list_jobs_target, [])
    else if str_eq word "dlq"
    then dlq_target args
    else if str_eq word "schedules"
    then some (list_schedules_target, [])
    else if str_eq word "schedule"
    then schedule_target args
    else none

-- A request goes to that handler with those parameters; an exit asks nothing.
abbrev pub IsServed : Command → Option (Target × List String) → Type 0
IsServed (exit status) target = Unit
IsServed (request r) target = dispatch r.method r.path ≡ or_unrouted target

-- An id that is one segment of a path.
abbrev pub IsSegment : Http → String → Type 0
IsSegment http id = (http.segments id ≡ id ∷ []) × (str_eq id "" ≡ false)

-- The third word, where it is an id.
abbrev pub HasSegments : Http → List String → Type 0
HasSegments http (word ∷ action ∷ id ∷ args) =
    str_eq word "submit" ≡ false → str_eq action "create" ≡ false → IsSegment http id
HasSegments http _ = Unit

IsServed-if :
    (b : Bool) (c c' : Command) (t t' : Option (Target × List String))
    → (b ≡ true → IsServed c t)
    → (b ≡ false → IsServed c' t')
    → IsServed (if b then c else c') (if b then t else t')
IsServed-if true c c' t t' h k = h refl
IsServed-if false c c' t t' h k = k refl

json-IsServed :
    (http : Http) (parsed : Parsed) (path : List String) (body : Flags → Body) (target : Target)
    → dispatch post path ≡ or_unrouted (some (target, []))
    → IsServed
        (elim parsed [
          | exits status ↦ exit status
          | flags_set flags ↦ json_request http path (body flags)
        ])
        (some (target, []))
json-IsServed http (exits status) path body target h = tt
json-IsServed http (flags_set flags) path body target h = h

other_text : (s t u : String) → str_eq s t ≡ true → str_eq t u ≡ false → str_eq s u ≡ false
other_text s t u same h = subst (λ v. str_eq v u ≡ false) (sym ((eq_iff s t).0 same)) h

submit-IsServed :
    (http : Http) (args : List String) → IsServed (submit http args) (some (submit_job_target, []))
unfolding submit dispatch find_route captured
submit-IsServed http args =
    json-IsServed http (parse_flags submit_flags none args) ("v1" ∷ "jobs" ∷ []) _ submit_job_target
      refl

create-IsServed :
    (http : Http) (args : List String)
    → IsServed (create_schedule_command http args) (some (create_schedule_target, []))
unfolding create_schedule_command dispatch find_route captured
create-IsServed http args =
    json-IsServed http (parse_flags create_flags none args) ("v1" ∷ "schedules" ∷ []) _
      create_schedule_target refl

dlq-IsServed :
    (http : Http) (args : List String)
    → HasSegments http ("dlq" ∷ args)
    → IsServed (dlq http args) (dlq_target args)
unfolding dlq dispatch find_route captured
dlq-IsServed http [] h = refl
dlq-IsServed http (word ∷ []) h = refl
dlq-IsServed http (word ∷ id ∷ args) h =
    IsServed-if (str_eq word "requeue")
      (plain_request post ("v1" ∷ "dlq" ∷ http.segments id ++ "requeue" ∷ []) "") list_dlq_command
      (some (requeue_dlq_target, id ∷ [])) (some (list_dlq_target, []))
      (λ is_requeue.
        let (one, filled) = h refl (other_text word "requeue" "create" is_requeue refl) in
        rw one (rw filled refl))
      (λ other. refl)

change-IsServed :
    (http : Http) (word : String) (args : List String)
    → str_eq word "create" ≡ false
    → HasSegments http ("schedule" ∷ word ∷ args)
    → (str_eq word "pause" || (str_eq word "resume" || str_eq word "delete")) ≡ true
    → IsServed (change_schedule http word args) (schedule_target (word ∷ args))
unfolding dispatch find_route captured
change-IsServed http word [] n h k = tt
change-IsServed http word (id ∷ []) n h k =
    let (one, filled) = h refl n in
    elim (Bool-cases (str_eq word "pause")) [
      | inl pause ↦ at_word "pause" pause (
          subst
            (λ segments.
              dispatch post ("v1" ∷ "schedules" ∷ segments ++ "pause" ∷ [])
              ≡ routed pause_schedule_target (id ∷ []))
            (sym one) (rw filled refl))
      | inr e ↦ elim (Bool-cases (str_eq word "resume")) [
        | inl resume ↦ at_word "resume" resume (
            subst
              (λ segments.
                dispatch post ("v1" ∷ "schedules" ∷ segments ++ "resume" ∷ [])
                ≡ routed resume_schedule_target (id ∷ []))
              (sym one) (rw filled (rw filled refl)))
        | inr f ↦ at_word "delete" (rw (e, f) at k) (
            subst
              (λ segments.
                dispatch delete ("v1" ∷ "schedules" ∷ segments)
                ≡ routed delete_schedule_target (id ∷ []))
              (sym one) (rw filled refl))
      ]
    ]
  where
    at_word :
        (w : String)
        → str_eq word w ≡ true
        → IsServed (change_schedule http w (id ∷ [])) (schedule_target (w ∷ id ∷ []))
        → IsServed (change_schedule http word (id ∷ [])) (schedule_target (word ∷ id ∷ []))
    at_word w same =
        subst (λ v. IsServed (change_schedule http v (id ∷ [])) (schedule_target (v ∷ id ∷ [])))
          (sym ((eq_iff word w).0 same))
change-IsServed http word (id ∷ more ∷ args) n h k = tt

create_target :
    (word : String) (args : List String)
    → str_eq word "create" ≡ true
    → schedule_target (word ∷ args) ≡ some (create_schedule_target, [])
create_target word [] e = rw e refl
create_target word (id ∷ args) e = rw e refl

schedule-IsServed :
    (http : Http) (args : List String)
    → HasSegments http ("schedule" ∷ args)
    → IsServed (schedule http args) (schedule_target args)
unfolding schedule
schedule-IsServed http [] h = tt
schedule-IsServed http (word ∷ args) h = elim (Bool-cases (str_eq word "create")) [
  | inl e ↦ rw (e, create_target word args e) (create-IsServed http args)
  | inr e ↦
      rw e
        (elim (Bool-cases (str_eq word "pause" || (str_eq word "resume" || str_eq word "delete"))) [
          | inl k ↦ rw k (change-IsServed http word args e h k)
          | inr k ↦ rw k tt
        ])
]

same_segments :
    (http : Http) (word w : String) (args : List String)
    → str_eq word "submit" ≡ false
    → HasSegments http (word ∷ args)
    → HasSegments http (w ∷ args)
same_segments http word w [] e h = tt
same_segments http word w (action ∷ []) e h = tt
same_segments http word w (action ∷ id ∷ args) e h = λ _ n. h e n

-- Whatever request a command line makes the CLI send, the API's table of routes gives it to the
-- handler that the words name, with the id as its parameter where they have one: if that id is one
-- segment of a path and not empty.
pub cli_routed :
    (http : Http) (args : List String)
    → HasSegments http args
    → IsServed (main http args) (intended args)
unfolding main dispatch find_route captured
cli_routed http [] h = tt
cli_routed http (word ∷ args) h =
    IsServed-if (str_eq word "submit") _ _ _ _ (λ e. submit-IsServed http args)
      λ n.
        IsServed-if (str_eq word "ls") _ _ _ _ (λ e. refl)
          λ _.
            IsServed-if (str_eq word "dlq") _ _ _ _
              (λ e. dlq-IsServed http args (same_segments http word "dlq" args n h))
              λ _.
                IsServed-if (str_eq word "schedules") _ _ _ _ (λ e. refl)
                  λ _.
                    IsServed-if (str_eq word "schedule") _ _ _ _
                      (λ e.
                        schedule-IsServed http args (same_segments http word "schedule" args n h))
                      λ _. tt
