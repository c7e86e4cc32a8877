-- ===== src/Language/English/First.antt =====
-- web/i18n.js, lines 12 to 113: the first part of the English table.
use chocobofix.Prelude.{String, List, [], ◌∷◌}

unfoldable pub english_first : List (String × String)
english_first =
    ("acct_active", "Active")
    ∷ ("acct_add", "Add an account")
    ∷ ("acct_create", "Create")
    ∷ ("acct_disable", "Disable")
    ∷ ("acct_disabled", "Disabled")
    ∷ ("acct_enable", "Enable")
    ∷ (
      "acct_note",
      "An administrator manages accounts but cannot publish a schedule, and an approver cannot create one. Those duties are kept apart on purpose.",
    )
    ∷ ("acct_you", "This is you")
    ∷ ("activities_all", "Jobs")
    ∷ ("activities_lede", "Every job in this project data, and the nights it was given.")
    ∷ ("activities_search", "Search job, contract or section")
    ∷ ("adjust", "Adjust schedule")
    ∷ ("adjust_churn", "{n} job-weeks change in total.")
    ∷ ("adjust_from", "From week")
    ∷ (
      "adjust_impossible",
      "The work cannot be fitted into the reduced access. The current schedule is unchanged, but it is no longer safe for these conditions.",
    )
    ∷ ("adjust_left", "Nights still available")
    ∷ ("adjust_note", "This is a preview. Nothing is published until an approver publishes it.")
    ∷ (
      "adjust_p",
      "Say which place loses nights and for how long. The current schedule is used as the starting point, and work that is not affected is kept where it is.",
    )
    ∷ ("adjust_preview", "Preview revised schedule")
    ∷ ("adjust_result", "Penalty goes from {before} to {after}. {n} jobs move.")
    ∷ ("adjust_title", "Adjust the schedule for reduced access")
    ∷ ("adjust_to", "To week")
    ∷ ("adjust_where", "Place")
    ∷ ("adjust_working", "Working out the consequences…")
    ∷ ("audit_auth.login", "Signed in")
    ∷ ("audit_auth.logout", "Signed out")
    ∷ ("audit_authz.deny", "Refused (role)")
    ∷ ("audit_bootstrap", "First administrator created")
    ∷ ("audit_instance.upload", "Data uploaded")
    ∷ ("audit_job.cancel", "Generation stopped")
    ∷ ("audit_job.create", "Generation started")
    ∷ ("audit_plan.approve", "Schedule published")
    ∷ ("audit_plan.create", "Schedule produced")
    ∷ ("audit_plan.explain", "Checked an alternative week")
    ∷ ("audit_plan.repair", "Previewed reduced access")
    ∷ ("audit_plan.revoke", "Schedule withdrawn")
    ∷ ("audit_project.create", "Project created")
    ∷ ("audit_user.create", "Account created")
    ∷ ("audit_user.disable", "Account disabled")
    ∷ ("audit_user.enable", "Account enabled")
    ∷ ("audit_user.role", "Role changed")
    ∷ ("back", "Back")
    ∷ ("cancel", "Cancel")
    ∷ ("check_continue", "Continue to generate")
    ∷ ("check_contracts_note", "each with its own deadline")
    ∷ ("check_contracts_title", "Contracts in this data")
    ∷ ("check_failed", "{n} problems stop this data being used.")
    ∷ ("check_failed_p", "Fix the file and choose it again. Files that were fine are still here.")
    ∷ ("check_firststart", "Earliest job can start:")
    ∷ ("check_fix", "Choose files again")
    ∷ (
      "check_invalidated",
      "{n} earlier plan(s) were built on different data and are now marked out of date.",
    )
    ∷ ("check_jobs_note", "each needs a number of nights")
    ∷ ("check_ok", "The files are complete and consistent.")
    ∷ ("check_problems", "What needs fixing")
    ∷ ("check_window", "Planning window")
    ∷ ("checking", "Checking the files on the server…")
    ∷ ("close", "Close")
    ∷ ("col_action", "")
    ∷ ("col_contract", "Contract")
    ∷ ("col_created", "Created")
    ∷ ("col_detail", "Detail")
    ∷ ("col_due", "Due")
    ∷ ("col_expected", "Expected finish")
    ∷ ("col_field", "Field")
    ∷ ("col_file", "File")
    ∷ ("col_given", "Nights given")
    ∷ ("col_job", "Job")
    ∷ ("col_kind", "Type of work")
    ∷ ("col_late", "Late by")
    ∷ ("col_madeby", "Made by")
    ∷ ("col_needs", "Nights needed")
    ∷ ("col_nights", "Nights needed")
    ∷ ("col_owner", "Owner")
    ∷ ("col_penalty", "Penalty")
    ∷ ("col_priority", "Priority")
    ∷ ("col_problem", "What is wrong")
    ∷ ("col_project", "Project")
    ∷ ("col_publishedby", "Published by")
    ∷ ("col_result", "Result")
    ∷ ("col_row", "Row")
    ∷ ("col_state", "State")
    ∷ ("col_version", "Version")
    ∷ ("col_weeks", "Weeks")
    ∷ ("col_what", "What")
    ∷ ("col_when", "When")
    ∷ ("col_where", "Where")
    ∷ ("col_who", "Who")
    ∷ ("create_admin", "Create administrator")
    ∷ ("d_after", "Only after")
    ∷ ("d_books", "Occupies")
    ∷ ("d_buffer", "Its safety buffer also keeps {n} further places clear.")
    ∷ ("d_earliest", "Cannot start before")
    ∷ ("d_locations", "places")
    ∷ ("d_none", "nothing")
    ∷ ("d_scheduled", "Nights given")
    ∷ ("d_unscheduled", "not scheduled")
    ∷ ("d_where", "Section")
    ∷ ("d_workload", "Work")
    ∷ (
      "demo_p1",
      "The sample project uses the published practice data, so you can see the whole journey without uploading anything.",
    )
    ∷ (
      "demo_p2",
      "Sign in first, then create a project and choose \"Try sample project\" on the upload step. If you are setting this up yourself, start the server with a first administrator:",
    )
    ∷ ("demo_p3", "Sample data is clearly marked and is kept separate from any real project.")
    ∷ ("download", "Download")
    ∷ []
