-- ===== src/Language/English/Third.antt =====
-- web/i18n.js, lines 216 to 315: the third part of the English table.
use chocobofix.Prelude.{String, List, [], ◌∷◌}

unfoldable pub english_third : List (String × String)
english_third =
    (
      "review_bad",
      "A schedule did not pass the rule check. It is kept for inspection but is not ready to publish.",
    )
    ∷ (
      "review_checked_means",
      "\"Checked\" means it passed our own rule checker. That is not official certification and not permission to dispatch work.",
    )
    ∷ ("review_done", "Finish and open the project")
    ∷ ("review_late_caption", "Select a contract to see the jobs behind it.")
    ∷ ("review_none_late", "Every contract finishes on or before its planned date.")
    ∷ ("review_ok", "{n} schedules were produced and passed the rule check.")
    ∷ ("review_saved", "Saved on the server as a new version.")
    ∷ ("role_administrator", "Administrator")
    ∷ ("role_administrator_what", "manages accounts, but cannot publish a schedule")
    ∷ ("role_approver", "Approver")
    ∷ ("role_approver_what", "can publish a reviewed schedule, but cannot create one")
    ∷ ("role_planner", "Planner")
    ∷ ("role_planner_what", "can import data, generate schedules and prepare revisions")
    ∷ ("role_viewer", "Viewer")
    ∷ ("role_viewer_what", "can see published schedules and download them")
    ∷ ("scen_A", "Keep existing access limits")
    ∷ (
      "scen_A_d",
      "Night-time access stays exactly as the data allows. No extra nights and no extended nights. The only thing that can move is when work finishes, so low-priority contracts slip first.",
    )
    ∷ ("scen_B", "Meet planned completion dates")
    ∷ (
      "scen_B_d",
      "Nothing finishes late. Where that needs extra nights or extended nights, the plan takes them and the cost is reported.",
    )
    ∷ ("scen_C", "Allow limited extra access")
    ∷ (
      "scen_C_d",
      "A balance. Lateness, extra nights and extended nights are all priced against each other. Extra access is limited to one night per place per week.",
    )
    ∷ ("scen_all", "All three")
    ∷ (
      "scen_all_d",
      "Generates A, B and C so their costs can be compared side by side. Recommended.",
    )
    ∷ ("schedule_contracts", "Contract finish dates")
    ∷ ("schedule_detail", "Selected job")
    ∷ (
      "schedule_lede",
      "Each bar is one night of work. Select a job to see where it goes and what it blocks.",
    )
    ∷ (
      "schedule_net_help",
      "Thicker and darker means more of that place’s nightly capacity is used. Red means it is full.",
    )
    ∷ ("schedule_network", "How busy the network is")
    ∷ ("schedule_pick", "Select a job in the timeline to see its details.")
    ∷ ("schedule_timeline", "When the work happens")
    ∷ ("settings_account", "Your account")
    ∷ ("settings_accounts", "Accounts")
    ∷ (
      "settings_lede", "Your account, what your role allows, and how this deployment handles data.",
    )
    ∷ ("settings_may", "This role may")
    ∷ ("settings_privacy", "Privacy and data")
    ∷ ("settings_role", "Role")
    ∷ ("show_tech", "Show technical details")
    ∷ ("signin", "Sign in")
    ∷ (
      "signin_first",
      "No accounts exist yet. The details you enter will create the first administrator.",
    )
    ∷ (
      "signin_lede",
      "Plan which work gets the track, on which nights — and check the answer before anyone acts on it.",
    )
    ∷ (
      "signin_note",
      "Accounts are created by an administrator. There is no self-registration, and no password is ever sent by email.",
    )
    ∷ ("signout", "Sign out")
    ∷ ("stage_check", "Check")
    ∷ ("stage_generate", "Generate")
    ∷ ("stage_review", "Review")
    ∷ ("stage_upload", "Upload")
    ∷ ("state_checked", "Checked")
    ∷ ("state_failed", "Failed the check")
    ∷ ("state_none", "Not generated")
    ∷ ("state_outdated", "Out of date")
    ∷ ("state_published", "Published")
    ∷ ("state_superseded", "Replaced")
    ∷ ("term_buffer", "Safety buffer")
    ∷ (
      "term_buffer_d",
      "Extra track kept clear beyond a worksite so nothing can run into it. Live-rail work also affects the opposite direction.",
    )
    ∷ ("term_checked", "Checked")
    ∷ (
      "term_checked_d",
      "The plan passed our own rule checker. That is not official certification and not permission to dispatch work.",
    )
    ∷ ("term_cosharing", "Sharing a slot")
    ∷ (
      "term_cosharing_d",
      "Two teams working the same place on the same night under one possession, instead of taking a night each.",
    )
    ∷ ("term_eclo", "Extended night (ECLO)")
    ∷ (
      "term_eclo_d",
      "Closing earlier or opening later to gain working time. It buys about half a night extra, and it costs passengers service.",
    )
    ∷ ("term_possession", "Possession")
    ∷ (
      "term_possession_d",
      "A booked period when a team may work on a stretch of track. Only so many fit at one place on one night.",
    )
    ∷ ("term_published", "Published")
    ∷ (
      "term_published_d",
      "An authorised approver signed off this exact plan. Colleagues see it; a later revision does not overwrite it silently.",
    )
    ∷ ("try_sample", "Try sample project")
    ∷ ("unpublish", "Withdraw")
    ∷ (
      "unpublish_p",
      "It returns to checked, and colleagues no longer see it as current. The record of the original approval is kept.",
    )
    ∷ ("unpublish_title", "Withdraw this schedule?")
    ∷ ("unpublish_why", "Reason")
    ∷ ("unpublish_why_ph", "Why is this being withdrawn?")
    ∷ ("upload_choose", "Choose files…")
    ∷ ("upload_continue", "Check files and continue")
    ∷ ("upload_drop", "Drop the eight CSV files here")
    ∷ ("upload_out1", "a night-by-night access schedule")
    ∷ ("upload_out2", "the locations each job occupies each week")
    ∷ ("upload_out3", "an expected finish date for every contract")
    ∷ ("upload_produces", "What you will get")
    ∷ (
      "upload_produces_p",
      "From this data the application produces, for each of the three scenarios:",
    )
    ∷ ("upload_title", "Project data")
    ∷ (
      "upload_what",
      "Eight files describe the network, the contracts and the work to be done. Drop them in together or choose them; the ones you have already chosen are kept.",
    )
    ∷ ("username", "Username")
    ∷ ("w_abbr", "w")
    ∷ ("why_because", "The rule in the way is:")
    ∷ ("why_check", "Check")
    ∷ ("why_checking", "Checking…")
    ∷ (
      "why_help",
      "Test whether this job could take a night in a week you choose, and what it would cost.",
    )
    ∷ ("why_moved", "{n} other jobs would move.")
    ∷ ("why_no", "No — that is impossible under the rules.")
    ∷ ("why_title", "Why not another week?")
    ∷ (
      "why_unknown",
      "Could not establish this within the time limit. That is not the same as impossible.",
    )
    ∷ ("why_yes", "Yes — it can be moved there.")
    ∷ (
      "wizard_lede",
      "Four steps. You can go back at any point, and nothing is sent until you choose to send it.",
    )
    ∷ ("wizard_title", "Create a plan")
    ∷ ("word_contracts", "contracts")
    ∷ ("word_days", "days")
    ∷ ("word_jobs", "jobs")
    ∷ ("word_nights", "nights")
    ∷ ("word_scenario", "Scenario")
    ∷ ("word_week", "Week")
    ∷ ("word_weeks", "weeks")
    ∷ []
