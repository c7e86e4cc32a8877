-- ===== src/Language/English/Second.antt =====
-- web/i18n.js, lines 114 to 215: the second part of the English table.
use chocobofix.Prelude.{String, List, [], ◌∷◌}

unfoldable pub english_second : List (String × String)
english_second =
    ("download_bad", "This plan did not pass the rule check. Do not submit it as a valid answer.")
    ∷ (
      "download_fallback",
      "This plan breaks its own scenario’s policy. It cannot be published and must not be submitted as a conforming answer.",
    )
    ∷ ("download_p", "The three competition files for Scenario {s} version {v}.")
    ∷ ("download_title", "Download files")
    ∷ ("err_need_both", "Enter a username and a password.")
    ∷ ("err_need_username", "Enter a username.")
    ∷ ("err_need_password", "Enter a password.")
    ∷ (
      "err_offline",
      "Cannot reach the server. Your work is not lost; try again when the connection returns.",
    )
    ∷ ("err_session", "Your session ended. Please sign in again.")
    ∷ ("file_missing", "not chosen yet")
    ∷ ("files_ignored", "Files that are not one of the eight were ignored.")
    ∷ ("files_ready", "files ready")
    ∷ ("flag_fallback", "Breaks its scenario")
    ∷ ("flag_strict", "Strict buffers")
    ∷ ("gen_advanced", "Advanced settings")
    ∷ ("gen_budget", "Time limit (seconds)")
    ∷ (
      "gen_budget_h",
      "How long the solver may search. Longer can find a better plan; it never changes the rules.",
    )
    ∷ ("gen_cancelled", "Stopped.")
    ∷ (
      "gen_conflict",
      "Someone else changed this project while you were working. Reload to see their changes, then try again.",
    )
    ∷ ("gen_done", "Finished.")
    ∷ ("gen_failed", "The solver could not produce a plan.")
    ∷ (
      "gen_lede", "Each scenario keeps different things fixed. Generate all three to compare them.",
    )
    ∷ ("gen_queued", "Waiting for a free solver…")
    ∷ ("gen_rule1", "Every job gets all the nights it needs. Nothing is dropped.")
    ∷ (
      "gen_rule2",
      "Safety buffers, live-rail effects and the shared interchange tunnel are always respected.",
    )
    ∷ (
      "gen_rule3",
      "No job starts before its planned start, or before the job it depends on has finished.",
    )
    ∷ ("gen_rule4", "A place can only hold so many possessions on a night.")
    ∷ ("gen_rules", "What never changes")
    ∷ ("gen_rules_p", "Whichever scenario you choose, these are never relaxed:")
    ∷ ("gen_run", "Generate schedule")
    ∷ ("gen_running", "Working…")
    ∷ ("gen_stop", "Stop")
    ∷ ("gen_title", "What should the plan protect?")
    ∷ (
      "gen_truthful",
      "There is no progress percentage: the solver cannot say how far through it is. Stopping keeps the best complete plan it has already found.",
    )
    ∷ ("help", "Help")
    ∷ (
      "help_p1",
      "TrackAccess turns maintenance requirements and limited night-time track access into a schedule, then checks that schedule against the operating rules before anyone relies on it.",
    )
    ∷ (
      "help_privacy",
      "This application stores no personal data beyond the account name you sign in with. See Settings for details.",
    )
    ∷ ("help_terms", "Terms used here")
    ∷ ("history_audit", "Activity log")
    ∷ ("history_empty", "No versions yet.")
    ∷ (
      "history_immutable",
      "A version never changes. Publishing records the exact plan and check result that were reviewed, so a later edit cannot inherit the approval.",
    )
    ∷ ("history_lede", "Every version of every schedule, who made it, and who published it.")
    ∷ ("history_versions", "Versions")
    ∷ ("lg_eclo", "extended night")
    ∷ ("lg_late", "after the planned date")
    ∷ ("lg_night", "night of work")
    ∷ ("loading", "Loading…")
    ∷ ("m_extra", "Extra / extended nights")
    ∷ ("m_extra_note", "above normal access")
    ∷ ("m_late", "Contracts finishing late")
    ∷ ("m_late_note", "against their planned date")
    ∷ ("m_penalty", "Penalty score")
    ∷ ("m_penalty_note", "lower is better; 0 is perfect")
    ∷ ("m_workload", "All work scheduled")
    ∷ ("m_workload_note", "every job has all its nights")
    ∷ ("m_workload_ok", "Yes")
    ∷ ("nav_activities", "Activities")
    ∷ ("nav_history", "History")
    ∷ ("nav_overview", "Overview")
    ∷ ("nav_projects", "Projects")
    ∷ ("nav_schedule", "Schedule")
    ∷ ("nav_settings", "Settings")
    ∷ ("next_approve", "A schedule has been checked and is waiting for someone to publish it.")
    ∷ (
      "next_await",
      "A schedule has been checked. An approver needs to publish it before colleagues can rely on it.",
    )
    ∷ ("next_failed", "A schedule did not pass the rule check. Open History to see why.")
    ∷ ("nothing_here", "Nothing here yet.")
    ∷ ("of", "of")
    ∷ ("on_time", "On time")
    ∷ ("overview_empty_h", "No schedule yet")
    ∷ ("overview_empty_p", "Add the project data and generate a schedule to get started.")
    ∷ ("overview_lede", "Where this project stands, and what to do next.")
    ∷ ("overview_need_planner", "Your role can view schedules but not create them.")
    ∷ ("overview_newplan", "Create another plan")
    ∷ ("overview_open", "Open schedule")
    ∷ ("overview_start", "Create a plan")
    ∷ ("overview_versions", "Versions")
    ∷ ("password", "Password")
    ∷ ("pri_1", "High")
    ∷ ("pri_2", "Normal")
    ∷ ("pri_3", "Low")
    ∷ (
      "privacy_l1",
      "Your account name and a one-way hash of your password. Passwords are never stored or shown.",
    )
    ∷ (
      "privacy_l2",
      "The track-access data you upload, kept inside your project and visible to you, approvers and administrators.",
    )
    ∷ ("privacy_l3", "Schedules you generate, and who published them.")
    ∷ (
      "privacy_l4",
      "An activity log of significant actions, with no personal detail beyond the account name.",
    )
    ∷ (
      "privacy_p1",
      "This deployment stores only what it needs to schedule work and to show who did what.",
    )
    ∷ (
      "privacy_p2",
      "No data leaves this server. There is no analytics, no third-party service and no external AI. Deleting an account does not delete shared project records, which belong to the organisation.",
    )
    ∷ ("projects_create", "Create project")
    ∷ ("projects_empty", "No projects yet.")
    ∷ (
      "projects_lede",
      "A project holds one set of track-access data and every schedule made from it.",
    )
    ∷ ("projects_name_ph", "For example: Northern renewals, Q1")
    ∷ ("projects_new", "New project")
    ∷ (
      "projects_new_help",
      "Give it a name you will recognise later. You can add the data in the next step.",
    )
    ∷ ("projects_readonly", "Your role can view projects but not create them.")
    ∷ ("projects_yours", "Your projects")
    ∷ ("publish", "Publish")
    ∷ ("publish_check", "Check fingerprint")
    ∷ ("publish_failed", "Could not publish")
    ∷ ("publish_p1", "Colleagues will see Scenario {s} version {v} as the current schedule.")
    ∷ (
      "publish_p2",
      "Publishing records the exact plan and check result shown here. If either changes later, the approval does not carry over.",
    )
    ∷ ("publish_plan", "Plan fingerprint")
    ∷ ("publish_title", "Publish this schedule?")
    ∷ ("reload", "Reload")
    ∷ []
