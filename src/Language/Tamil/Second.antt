-- ===== src/Language/Tamil/Second.antt =====
-- web/i18n.js, lines 726 to 827: the second part of the Tamil table.
use chocobofix.Prelude.{String, List, [], ◌∷◌}

unfoldable pub tamil_second : List (String × String)
tamil_second =
    (
      "download_bad",
      "இந்தத் திட்டம் விதிச் சரிபார்ப்பில் தேர்ச்சி பெறவில்லை. சரியான பதிலாகச் சமர்ப்பிக்க வேண்டாம்.",
    )
    ∷ (
      "download_fallback",
      "இந்தத் திட்டம் அதன் சூழ்நிலைக் கொள்கையை மீறுகிறது. இதை வெளியிட முடியாது; இணக்கமான பதிலாகச் சமர்ப்பிக்கவும் கூடாது.",
    )
    ∷ ("download_p", "சூழ்நிலை {s} பதிப்பு {v} க்கான மூன்று போட்டிக் கோப்புகள்.")
    ∷ ("download_title", "கோப்புகளைப் பதிவிறக்கு")
    ∷ ("err_need_both", "பயனர் பெயரையும் கடவுச்சொல்லையும் உள்ளிடவும்.")
    ∷ ("err_need_username", "பயனர் பெயரை உள்ளிடவும்.")
    ∷ ("err_need_password", "கடவுச்சொல்லை உள்ளிடவும்.")
    ∷ (
      "err_offline",
      "சேவையகத்தை அணுக முடியவில்லை. உங்கள் பணி இழக்கப்படவில்லை; இணைப்பு திரும்பியதும் மீண்டும் முயற்சிக்கவும்.",
    )
    ∷ ("err_session", "உங்கள் அமர்வு முடிந்தது. மீண்டும் உள்நுழையவும்.")
    ∷ ("file_missing", "இன்னும் தேர்ந்தெடுக்கவில்லை")
    ∷ ("files_ignored", "எட்டில் இல்லாத கோப்புகள் புறக்கணிக்கப்பட்டன.")
    ∷ ("files_ready", "கோப்புகள் தயார்")
    ∷ ("flag_fallback", "அதன் சூழ்நிலையை மீறுகிறது")
    ∷ ("flag_strict", "கடும் இடையகங்கள்")
    ∷ ("gen_advanced", "மேம்பட்ட அமைப்புகள்")
    ∷ ("gen_budget", "கால வரம்பு (வினாடிகள்)")
    ∷ (
      "gen_budget_h",
      "தீர்வி எவ்வளவு நேரம் தேடலாம். நீண்ட நேரம் சிறந்த திட்டத்தைக் கண்டறியலாம்; அது விதிகளை மாற்றுவதில்லை.",
    )
    ∷ ("gen_cancelled", "நிறுத்தப்பட்டது.")
    ∷ (
      "gen_conflict",
      "நீங்கள் வேலை செய்யும்போது வேறு ஒருவர் இந்தத் திட்டத்தை மாற்றியுள்ளார். அவர்களின் மாற்றங்களைக் காண மீண்டும் ஏற்றி, பின் முயற்சிக்கவும்.",
    )
    ∷ ("gen_done", "முடிந்தது.")
    ∷ ("gen_failed", "தீர்வியால் திட்டத்தை உருவாக்க முடியவில்லை.")
    ∷ (
      "gen_lede",
      "ஒவ்வொரு சூழ்நிலையும் வெவ்வேறு விஷயங்களை நிலையாக வைக்கிறது. ஒப்பிட மூன்றையும் உருவாக்கவும்.",
    )
    ∷ ("gen_queued", "காலியான தீர்விக்காகக் காத்திருக்கிறது…")
    ∷ ("gen_rule1", "ஒவ்வொரு பணியும் தேவையான அனைத்து இரவுகளையும் பெறும். எதுவும் கைவிடப்படாது.")
    ∷ (
      "gen_rule2",
      "பாதுகாப்பு இடையகங்கள், மின்சாரத் தண்டவாள விளைவுகள், பகிரப்பட்ட இடைமாற்றுச் சுரங்கம் எப்போதும் மதிக்கப்படும்.",
    )
    ∷ (
      "gen_rule3",
      "எந்தப் பணியும் அதன் திட்டமிட்ட தொடக்கத்திற்கு முன்னோ, அது சார்ந்துள்ள பணி முடிவதற்கு முன்னோ தொடங்காது.",
    )
    ∷ (
      "gen_rule4",
      "ஓர் இடம் ஓர் இரவில் குறிப்பிட்ட எண்ணிக்கையிலான ஆக்கிரமிப்புகளை மட்டுமே தாங்கும்.",
    )
    ∷ ("gen_rules", "ஒருபோதும் மாறாதவை")
    ∷ ("gen_rules_p", "நீங்கள் எந்தச் சூழ்நிலையைத் தேர்ந்தெடுத்தாலும், இவை தளர்த்தப்படுவதில்லை:")
    ∷ ("gen_run", "அட்டவணையை உருவாக்கு")
    ∷ ("gen_running", "வேலை நடக்கிறது…")
    ∷ ("gen_stop", "நிறுத்து")
    ∷ ("gen_title", "திட்டம் எதைப் பாதுகாக்க வேண்டும்?")
    ∷ (
      "gen_truthful",
      "முன்னேற்ற சதவீதம் இல்லை: தீர்வி தான் எவ்வளவு தூரம் வந்துள்ளது எனச் சொல்ல முடியாது. நிறுத்தினால் ஏற்கெனவே கண்ட சிறந்த முழுத் திட்டம் வைக்கப்படும்.",
    )
    ∷ ("help", "உதவி")
    ∷ (
      "help_p1",
      "TrackAccess பராமரிப்புத் தேவைகளையும் வரையறுக்கப்பட்ட இரவு நேர அணுகலையும் ஒரு அட்டவணையாக மாற்றுகிறது; பின்னர் யாரும் அதை நம்புவதற்கு முன் இயக்க விதிகளுக்கு எதிராகச் சரிபார்க்கிறது.",
    )
    ∷ (
      "help_privacy",
      "நீங்கள் உள்நுழையும் கணக்குப் பெயரைத் தவிர இந்தப் பயன்பாடு தனிப்பட்ட தரவை சேமிப்பதில்லை. விவரங்களுக்கு அமைப்புகளைப் பார்க்கவும்.",
    )
    ∷ ("help_terms", "இங்கே பயன்படுத்தப்படும் சொற்கள்")
    ∷ ("history_audit", "செயல் பதிவு")
    ∷ ("history_empty", "இன்னும் பதிப்புகள் இல்லை.")
    ∷ (
      "history_immutable",
      "பதிப்பு ஒருபோதும் மாறாது. வெளியிடுதல் பரிசீலிக்கப்பட்ட சரியான திட்டத்தையும் சரிபார்ப்பு முடிவையும் பதிவு செய்கிறது; எனவே பிந்தைய திருத்தம் அந்த அனுமதியைப் பெற முடியாது.",
    )
    ∷ (
      "history_lede",
      "ஒவ்வோர் அட்டவணையின் ஒவ்வொரு பதிப்பும், யார் உருவாக்கினார், யார் வெளியிட்டார்.",
    )
    ∷ ("history_versions", "பதிப்புகள்")
    ∷ ("lg_eclo", "நீட்டிக்கப்பட்ட இரவு")
    ∷ ("lg_late", "திட்டமிட்ட தேதிக்குப் பின்")
    ∷ ("lg_night", "இரவுப் பணி")
    ∷ ("loading", "ஏற்றுகிறது…")
    ∷ ("m_extra", "கூடுதல் / நீட்டிக்கப்பட்ட இரவுகள்")
    ∷ ("m_extra_note", "வழக்கமான அணுகலுக்கு மேல்")
    ∷ ("m_late", "தாமதமாக முடியும் ஒப்பந்தங்கள்")
    ∷ ("m_late_note", "திட்டமிட்ட தேதியுடன் ஒப்பிடுகையில்")
    ∷ ("m_penalty", "அபராதப் புள்ளி")
    ∷ ("m_penalty_note", "குறைவானது சிறந்தது; 0 சரியானது")
    ∷ ("m_workload", "அனைத்துப் பணியும் அட்டவணையிடப்பட்டது")
    ∷ ("m_workload_note", "ஒவ்வொரு பணியும் அதன் அனைத்து இரவுகளையும் பெற்றுள்ளது")
    ∷ ("m_workload_ok", "ஆம்")
    ∷ ("nav_activities", "பணிகள்")
    ∷ ("nav_history", "வரலாறு")
    ∷ ("nav_overview", "மேலோட்டம்")
    ∷ ("nav_projects", "திட்டங்கள்")
    ∷ ("nav_schedule", "அட்டவணை")
    ∷ ("nav_settings", "அமைப்புகள்")
    ∷ ("next_approve", "ஓர் அட்டவணை சரிபார்க்கப்பட்டு வெளியிடக் காத்திருக்கிறது.")
    ∷ (
      "next_await",
      "ஓர் அட்டவணை சரிபார்க்கப்பட்டது. சகாக்கள் நம்புவதற்கு முன் அனுமதிப்பவர் அதை வெளியிட வேண்டும்.",
    )
    ∷ (
      "next_failed",
      "ஓர் அட்டவணை விதிச் சரிபார்ப்பில் தேர்ச்சி பெறவில்லை. காரணத்தைக் காண வரலாற்றைத் திறக்கவும்.",
    )
    ∷ ("nothing_here", "இங்கே இன்னும் எதுவும் இல்லை.")
    ∷ ("of", "/")
    ∷ ("on_time", "சரியான நேரத்தில்")
    ∷ ("overview_empty_h", "இன்னும் அட்டவணை இல்லை")
    ∷ ("overview_empty_p", "திட்டத் தரவைச் சேர்த்து அட்டவணையை உருவாக்கித் தொடங்கவும்.")
    ∷ ("overview_lede", "இந்தத் திட்டம் எங்கு நிற்கிறது, அடுத்து என்ன செய்ய வேண்டும்.")
    ∷ ("overview_need_planner", "உங்கள் பங்கு அட்டவணைகளைப் பார்க்கலாம், உருவாக்க முடியாது.")
    ∷ ("overview_newplan", "மற்றொரு திட்டத்தை உருவாக்கு")
    ∷ ("overview_open", "அட்டவணையைத் திற")
    ∷ ("overview_start", "ஒரு திட்டத்தை உருவாக்கு")
    ∷ ("overview_versions", "பதிப்புகள்")
    ∷ ("password", "கடவுச்சொல்")
    ∷ ("pri_1", "உயர்")
    ∷ ("pri_2", "சாதாரண")
    ∷ ("pri_3", "குறைந்த")
    ∷ (
      "privacy_l1",
      "உங்கள் கணக்குப் பெயரும் கடவுச்சொல்லின் ஒருவழி ஹாஷும். கடவுச்சொற்கள் ஒருபோதும் சேமிக்கப்படுவதில்லை, காட்டப்படுவதில்லை.",
    )
    ∷ (
      "privacy_l2",
      "நீங்கள் பதிவேற்றும் அணுகல் தரவு, உங்கள் திட்டத்திற்குள் வைக்கப்பட்டு உங்களுக்கும் அனுமதிப்பவர்களுக்கும் நிர்வாகிகளுக்கும் மட்டும் தெரியும்.",
    )
    ∷ ("privacy_l3", "நீங்கள் உருவாக்கும் அட்டவணைகள், யார் வெளியிட்டார்கள் என்பதும்.")
    ∷ ("privacy_l4", "முக்கியச் செயல்களின் பதிவு; கணக்குப் பெயரைத் தவிர தனிப்பட்ட விவரம் இல்லை.")
    ∷ (
      "privacy_p1",
      "இந்த அமைப்பு பணியை அட்டவணையிடவும் யார் என்ன செய்தார் எனக் காட்டவும் தேவையானதை மட்டுமே சேமிக்கிறது.",
    )
    ∷ (
      "privacy_p2",
      "எந்தத் தரவும் இந்தச் சேவையகத்தை விட்டு வெளியேறாது. பகுப்பாய்வு இல்லை, மூன்றாம் தரப்புச் சேவை இல்லை, வெளிப்புற AI இல்லை. கணக்கை நீக்குவது நிறுவனத்திற்குச் சொந்தமான பகிரப்பட்ட திட்டப் பதிவுகளை நீக்காது.",
    )
    ∷ ("projects_create", "திட்டத்தை உருவாக்கு")
    ∷ ("projects_empty", "இன்னும் திட்டங்கள் இல்லை.")
    ∷ (
      "projects_lede",
      "ஒரு திட்டத்தில் ஒரு தொகுப்பு அணுகல் தரவும், அதிலிருந்து உருவான ஒவ்வொரு அட்டவணையும் இருக்கும்.",
    )
    ∷ ("projects_name_ph", "எடுத்துக்காட்டு: வடக்குப் புதுப்பிப்பு, கா1")
    ∷ ("projects_new", "புதிய திட்டம்")
    ∷ (
      "projects_new_help",
      "பின்னர் அடையாளம் காணக்கூடிய பெயரைக் கொடுங்கள். தரவை அடுத்த படியில் சேர்க்கலாம்.",
    )
    ∷ ("projects_readonly", "உங்கள் பங்கு திட்டங்களைப் பார்க்கலாம், உருவாக்க முடியாது.")
    ∷ ("projects_yours", "உங்கள் திட்டங்கள்")
    ∷ ("publish", "வெளியிடு")
    ∷ ("publish_check", "சரிபார்ப்பு கைரேகை")
    ∷ ("publish_failed", "வெளியிட முடியவில்லை")
    ∷ ("publish_p1", "சகாக்கள் சூழ்நிலை {s} பதிப்பு {v} ஐ தற்போதைய அட்டவணையாகக் காண்பர்.")
    ∷ (
      "publish_p2",
      "வெளியிடுதல் இங்கே காட்டப்படும் சரியான திட்டத்தையும் சரிபார்ப்பு முடிவையும் பதிவு செய்கிறது. பின்னர் ஏதேனும் மாறினால் அனுமதி தொடராது.",
    )
    ∷ ("publish_plan", "திட்ட கைரேகை")
    ∷ ("publish_title", "இந்த அட்டவணையை வெளியிடவா?")
    ∷ ("reload", "மீண்டும் ஏற்று")
    ∷ []
