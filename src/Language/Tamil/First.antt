-- ===== src/Language/Tamil/First.antt =====
-- web/i18n.js, lines 624 to 725: the first part of the Tamil table.
use chocobofix.Prelude.{String, List, [], ◌∷◌}

unfoldable pub tamil_first : List (String × String)
tamil_first =
    ("acct_active", "செயலில்")
    ∷ ("acct_add", "கணக்கைச் சேர்")
    ∷ ("acct_create", "உருவாக்கு")
    ∷ ("acct_disable", "முடக்கு")
    ∷ ("acct_disabled", "முடக்கப்பட்டது")
    ∷ ("acct_enable", "இயக்கு")
    ∷ (
      "acct_note",
      "நிர்வாகி கணக்குகளை நிர்வகிக்கிறார் ஆனால் அட்டவணையை வெளியிட முடியாது; அனுமதிப்பவர் அட்டவணையை உருவாக்க முடியாது. இப்பணிகள் வேண்டுமென்றே பிரிக்கப்பட்டுள்ளன.",
    )
    ∷ ("acct_you", "இது நீங்கள்")
    ∷ ("activities_all", "பணிகள்")
    ∷ (
      "activities_lede",
      "இந்தத் திட்டத் தரவில் உள்ள ஒவ்வொரு பணியும், அதற்கு வழங்கப்பட்ட இரவுகளும்.",
    )
    ∷ ("activities_search", "பணி, ஒப்பந்தம் அல்லது பகுதியைத் தேடு")
    ∷ ("adjust", "அட்டவணையைச் சரிசெய்")
    ∷ ("adjust_churn", "மொத்தம் {n} பணி-வாரங்கள் மாறுகின்றன.")
    ∷ ("adjust_from", "வாரம் முதல்")
    ∷ (
      "adjust_impossible",
      "குறைந்த அணுகலில் இந்தப் பணிகளைப் பொருத்த முடியாது. தற்போதைய அட்டவணை மாறவில்லை; ஆனால் இந்த நிலைமைகளுக்கு அது இனி பாதுகாப்பானது அல்ல.",
    )
    ∷ ("adjust_left", "இன்னும் உள்ள இரவுகள்")
    ∷ ("adjust_note", "இது ஒரு முன்னோட்டம். அனுமதிப்பவர் வெளியிடும் வரை எதுவும் வெளியிடப்படாது.")
    ∷ (
      "adjust_p",
      "எந்த இடம் இரவுகளை இழக்கிறது, எவ்வளவு காலம் என்பதைக் கூறவும். தற்போதைய அட்டவணை தொடக்கப் புள்ளியாகப் பயன்படும்; பாதிக்கப்படாத பணிகள் அப்படியே இருக்கும்.",
    )
    ∷ ("adjust_preview", "திருத்திய அட்டவணையை முன்னோட்டம்")
    ∷ ("adjust_result", "அபராதம் {before} இலிருந்து {after} ஆக மாறுகிறது. {n} பணிகள் நகர்கின்றன.")
    ∷ ("adjust_title", "குறைந்த அணுகலுக்கு அட்டவணையைச் சரிசெய்")
    ∷ ("adjust_to", "வாரம் வரை")
    ∷ ("adjust_where", "இடம்")
    ∷ ("adjust_working", "விளைவுகள் கணக்கிடப்படுகின்றன…")
    ∷ ("audit_auth.login", "உள்நுழைந்தார்")
    ∷ ("audit_auth.logout", "வெளியேறினார்")
    ∷ ("audit_authz.deny", "மறுக்கப்பட்டது (பங்கு)")
    ∷ ("audit_bootstrap", "முதல் நிர்வாகி உருவாக்கப்பட்டார்")
    ∷ ("audit_instance.upload", "தரவு பதிவேற்றப்பட்டது")
    ∷ ("audit_job.cancel", "உருவாக்கம் நிறுத்தப்பட்டது")
    ∷ ("audit_job.create", "உருவாக்கம் தொடங்கியது")
    ∷ ("audit_plan.approve", "அட்டவணை வெளியிடப்பட்டது")
    ∷ ("audit_plan.create", "அட்டவணை உருவாக்கப்பட்டது")
    ∷ ("audit_plan.explain", "மாற்று வாரம் சரிபார்க்கப்பட்டது")
    ∷ ("audit_plan.repair", "குறைந்த அணுகல் முன்னோட்டம்")
    ∷ ("audit_plan.revoke", "அட்டவணை திரும்பப் பெறப்பட்டது")
    ∷ ("audit_project.create", "திட்டம் உருவாக்கப்பட்டது")
    ∷ ("audit_user.create", "கணக்கு உருவாக்கப்பட்டது")
    ∷ ("audit_user.disable", "கணக்கு முடக்கப்பட்டது")
    ∷ ("audit_user.enable", "கணக்கு இயக்கப்பட்டது")
    ∷ ("audit_user.role", "பங்கு மாற்றப்பட்டது")
    ∷ ("back", "பின்")
    ∷ ("cancel", "ரத்து")
    ∷ ("check_continue", "உருவாக்கத் தொடர்")
    ∷ ("check_contracts_note", "ஒவ்வொன்றுக்கும் அதன் காலக்கெடு")
    ∷ ("check_contracts_title", "இந்தத் தரவில் உள்ள ஒப்பந்தங்கள்")
    ∷ ("check_failed", "{n} சிக்கல்கள் இந்தத் தரவைப் பயன்படுத்த தடையாக உள்ளன.")
    ∷ (
      "check_failed_p",
      "கோப்பைச் சரிசெய்து மீண்டும் தேர்ந்தெடுக்கவும். சரியாக இருந்த கோப்புகள் இன்னும் இங்கே உள்ளன.",
    )
    ∷ ("check_firststart", "மிக விரைவில் தொடங்கக்கூடியது:")
    ∷ ("check_fix", "கோப்புகளை மீண்டும் தேர்வுசெய்")
    ∷ (
      "check_invalidated",
      "{n} முந்தைய திட்டங்கள் வேறு தரவில் கட்டப்பட்டவை; இப்போது காலாவதியாகக் குறிக்கப்பட்டுள்ளன.",
    )
    ∷ ("check_jobs_note", "ஒவ்வொன்றுக்கும் சில இரவுகள் தேவை")
    ∷ ("check_ok", "கோப்புகள் முழுமையானவை, ஒத்திசைவானவை.")
    ∷ ("check_problems", "சரிசெய்ய வேண்டியவை")
    ∷ ("check_window", "திட்டமிடல் சாளரம்")
    ∷ ("checking", "சேவையகத்தில் கோப்புகள் சரிபார்க்கப்படுகின்றன…")
    ∷ ("close", "மூடு")
    ∷ ("col_action", "")
    ∷ ("col_contract", "ஒப்பந்தம்")
    ∷ ("col_created", "உருவாக்கியது")
    ∷ ("col_detail", "விவரம்")
    ∷ ("col_due", "காலக்கெடு")
    ∷ ("col_expected", "எதிர்பார்க்கும் நிறைவு")
    ∷ ("col_field", "புலம்")
    ∷ ("col_file", "கோப்பு")
    ∷ ("col_given", "வழங்கிய இரவுகள்")
    ∷ ("col_job", "பணி")
    ∷ ("col_kind", "பணி வகை")
    ∷ ("col_late", "தாமதம்")
    ∷ ("col_madeby", "உருவாக்கியவர்")
    ∷ ("col_needs", "தேவையான இரவுகள்")
    ∷ ("col_nights", "தேவையான இரவுகள்")
    ∷ ("col_owner", "உரிமையாளர்")
    ∷ ("col_penalty", "அபராதம்")
    ∷ ("col_priority", "முன்னுரிமை")
    ∷ ("col_problem", "என்ன தவறு")
    ∷ ("col_project", "திட்டம்")
    ∷ ("col_publishedby", "வெளியிட்டவர்")
    ∷ ("col_result", "முடிவு")
    ∷ ("col_row", "வரிசை")
    ∷ ("col_state", "நிலை")
    ∷ ("col_version", "பதிப்பு")
    ∷ ("col_weeks", "வாரங்கள்")
    ∷ ("col_what", "என்ன")
    ∷ ("col_when", "எப்போது")
    ∷ ("col_where", "எங்கே")
    ∷ ("col_who", "யார்")
    ∷ ("create_admin", "நிர்வாகியை உருவாக்கு")
    ∷ ("d_after", "இதற்குப் பிறகே")
    ∷ ("d_books", "ஆக்கிரமிக்கிறது")
    ∷ ("d_buffer", "அதன் பாதுகாப்பு இடையகம் மேலும் {n} இடங்களைக் காலியாக வைக்கிறது.")
    ∷ ("d_earliest", "இதற்கு முன் தொடங்க முடியாது")
    ∷ ("d_locations", "இடங்கள்")
    ∷ ("d_none", "எதுவுமில்லை")
    ∷ ("d_scheduled", "வழங்கிய இரவுகள்")
    ∷ ("d_unscheduled", "அட்டவணையிடப்படவில்லை")
    ∷ ("d_where", "பகுதி")
    ∷ ("d_workload", "பணி")
    ∷ (
      "demo_p1",
      "மாதிரித் திட்டம் வெளியிடப்பட்ட பயிற்சித் தரவைப் பயன்படுத்துகிறது; எதையும் பதிவேற்றாமல் முழுப் பயணத்தையும் காணலாம்.",
    )
    ∷ (
      "demo_p2",
      "முதலில் உள்நுழைந்து, ஒரு திட்டத்தை உருவாக்கி, பதிவேற்றப் படியில் “மாதிரித் திட்டத்தை முயற்சி” என்பதைத் தேர்வுசெய்யவும். நீங்களே அமைக்கிறீர்கள் எனில், முதல் நிர்வாகியுடன் சேவையகத்தைத் தொடங்கவும்:",
    )
    ∷ (
      "demo_p3",
      "மாதிரித் தரவு தெளிவாகக் குறிக்கப்பட்டு, உண்மையான திட்டங்களிலிருந்து தனியாக வைக்கப்படுகிறது.",
    )
    ∷ ("download", "பதிவிறக்கு")
    ∷ []
