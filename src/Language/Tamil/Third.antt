-- ===== src/Language/Tamil/Third.antt =====
-- web/i18n.js, lines 828 to 927: the third part of the Tamil table.
use chocobofix.Prelude.{String, List, [], ◌∷◌}

unfoldable pub tamil_third : List (String × String)
tamil_third =
    (
      "review_bad",
      "ஓர் அட்டவணை விதிச் சரிபார்ப்பில் தேர்ச்சி பெறவில்லை. ஆய்வுக்காக வைக்கப்பட்டுள்ளது; வெளியிடத் தயாராக இல்லை.",
    )
    ∷ (
      "review_checked_means",
      "“சரிபார்க்கப்பட்டது” என்பது எங்கள் சொந்த விதிச் சரிபார்ப்பியில் தேர்ச்சி பெற்றது என்பதே. இது அதிகாரப்பூர்வ சான்றிதழ் அல்ல; பணி அனுப்ப அனுமதியும் அல்ல.",
    )
    ∷ ("review_done", "முடித்துத் திட்டத்தைத் திற")
    ∷ ("review_late_caption", "அதன் பின்னுள்ள பணிகளைக் காண ஒப்பந்தத்தைத் தேர்ந்தெடுக்கவும்.")
    ∷ ("review_none_late", "ஒவ்வொரு ஒப்பந்தமும் திட்டமிட்ட தேதியிலோ அதற்கு முன்போ முடிகிறது.")
    ∷ ("review_ok", "{n} அட்டவணைகள் உருவாக்கப்பட்டு விதிச் சரிபார்ப்பில் தேர்ச்சி பெற்றன.")
    ∷ ("review_saved", "புதிய பதிப்பாகச் சேவையகத்தில் சேமிக்கப்பட்டது.")
    ∷ ("role_administrator", "நிர்வாகி")
    ∷ ("role_administrator_what", "கணக்குகளை நிர்வகிக்கலாம்; ஆனால் அட்டவணையை வெளியிட முடியாது")
    ∷ ("role_approver", "அனுமதிப்பவர்")
    ∷ ("role_approver_what", "சரிபார்க்கப்பட்ட அட்டவணையை வெளியிடலாம்; ஆனால் உருவாக்க முடியாது")
    ∷ ("role_planner", "திட்டமிடுபவர்")
    ∷ (
      "role_planner_what",
      "தரவை இறக்குமதி செய்து, அட்டவணைகளை உருவாக்கி, திருத்தங்களைத் தயாரிக்கலாம்",
    )
    ∷ ("role_viewer", "பார்வையாளர்")
    ∷ ("role_viewer_what", "வெளியிடப்பட்ட அட்டவணைகளைப் பார்த்துப் பதிவிறக்கலாம்")
    ∷ ("scen_A", "தற்போதைய அணுகல் வரம்புகளைத் தக்கவை")
    ∷ (
      "scen_A_d",
      "இரவு நேர அணுகல் தரவு அனுமதிப்பது போலவே இருக்கும். கூடுதல் இரவுகளோ நீட்டிக்கப்பட்ட இரவுகளோ இல்லை. மாறக்கூடியது பணி முடியும் நேரம் மட்டுமே; எனவே குறைந்த முன்னுரிமை ஒப்பந்தங்கள் முதலில் தள்ளிப்போகும்.",
    )
    ∷ ("scen_B", "திட்டமிட்ட நிறைவு தேதிகளை அடை")
    ∷ (
      "scen_B_d",
      "எதுவும் தாமதமாக முடியாது. அதற்குக் கூடுதல் இரவுகளோ நீட்டிக்கப்பட்ட இரவுகளோ தேவைப்பட்டால் திட்டம் அவற்றை எடுக்கும், செலவு அறிக்கையிடப்படும்.",
    )
    ∷ ("scen_C", "வரையறுக்கப்பட்ட கூடுதல் அணுகலை அனுமதி")
    ∷ (
      "scen_C_d",
      "ஒரு சமநிலை. தாமதம், கூடுதல் இரவுகள், நீட்டிக்கப்பட்ட இரவுகள் அனைத்தும் ஒன்றுக்கொன்று எதிராக விலை மதிக்கப்படுகின்றன. கூடுதல் அணுகல் ஓர் இடத்திற்கு வாரத்திற்கு ஓர் இரவாக வரையறுக்கப்படுகிறது.",
    )
    ∷ ("scen_all", "மூன்றும்")
    ∷ (
      "scen_all_d",
      "A, B, C ஆகியவற்றை உருவாக்கி அவற்றின் செலவுகளை அருகருகே ஒப்பிடலாம். பரிந்துரைக்கப்படுகிறது.",
    )
    ∷ ("schedule_contracts", "ஒப்பந்த நிறைவு தேதிகள்")
    ∷ ("schedule_detail", "தேர்ந்தெடுத்த பணி")
    ∷ (
      "schedule_lede",
      "ஒவ்வொரு பட்டையும் ஓர் இரவுப் பணி. ஒரு பணியைத் தேர்ந்தெடுத்து அது எங்கே செல்கிறது, எதைத் தடுக்கிறது எனக் காணலாம்.",
    )
    ∷ (
      "schedule_net_help",
      "தடிமனும் கருமையும் அந்த இடத்தின் இரவு கொள்ளளவு அதிகம் பயன்படுத்தப்படுவதைக் காட்டுகிறது. சிவப்பு நிரம்பியதைக் குறிக்கிறது.",
    )
    ∷ ("schedule_network", "வலையமைப்பு எவ்வளவு பரபரப்பாக உள்ளது")
    ∷ ("schedule_pick", "விவரங்களைக் காண கால அட்டவணையில் ஒரு பணியைத் தேர்ந்தெடுக்கவும்.")
    ∷ ("schedule_timeline", "பணி எப்போது நடக்கிறது")
    ∷ ("settings_account", "உங்கள் கணக்கு")
    ∷ ("settings_accounts", "கணக்குகள்")
    ∷ (
      "settings_lede",
      "உங்கள் கணக்கு, உங்கள் பங்கு அனுமதிப்பவை, இந்த அமைப்பு தரவை எப்படிக் கையாளுகிறது.",
    )
    ∷ ("settings_may", "இந்தப் பங்கு செய்யலாம்")
    ∷ ("settings_privacy", "தனியுரிமையும் தரவும்")
    ∷ ("settings_role", "பங்கு")
    ∷ ("show_tech", "தொழில்நுட்ப விவரங்களைக் காட்டு")
    ∷ ("signin", "உள்நுழை")
    ∷ (
      "signin_first",
      "இன்னும் கணக்குகள் இல்லை. நீங்கள் உள்ளிடும் விவரங்கள் முதல் நிர்வாகியை உருவாக்கும்.",
    )
    ∷ (
      "signin_lede",
      "எந்தப் பணிக்கு எந்த இரவுகளில் தண்டவாளம் கிடைக்கும் என்பதைத் திட்டமிடுங்கள் — யாரும் செயல்படுவதற்கு முன் பதிலைச் சரிபாருங்கள்.",
    )
    ∷ (
      "signin_note",
      "கணக்குகளை நிர்வாகி உருவாக்குகிறார். சுய பதிவு இல்லை; கடவுச்சொல் மின்னஞ்சலில் அனுப்பப்படுவதில்லை.",
    )
    ∷ ("signout", "வெளியேறு")
    ∷ ("stage_check", "சரிபார்")
    ∷ ("stage_generate", "உருவாக்கு")
    ∷ ("stage_review", "மறுபரிசீலனை")
    ∷ ("stage_upload", "பதிவேற்று")
    ∷ ("state_checked", "சரிபார்க்கப்பட்டது")
    ∷ ("state_failed", "சரிபார்ப்பில் தோல்வி")
    ∷ ("state_none", "உருவாக்கப்படவில்லை")
    ∷ ("state_outdated", "காலாவதி")
    ∷ ("state_published", "வெளியிடப்பட்டது")
    ∷ ("state_superseded", "மாற்றப்பட்டது")
    ∷ ("term_buffer", "பாதுகாப்பு இடையகம்")
    ∷ (
      "term_buffer_d",
      "பணியிடத்திற்கு அப்பால் காலியாக வைக்கப்படும் கூடுதல் தண்டவாளம். மின்சாரத் தண்டவாளப் பணி எதிர்த் திசையையும் பாதிக்கும்.",
    )
    ∷ ("term_checked", "சரிபார்க்கப்பட்டது")
    ∷ (
      "term_checked_d",
      "திட்டம் எங்கள் சொந்த விதிச் சரிபார்ப்பியில் தேர்ச்சி பெற்றது. இது அதிகாரப்பூர்வ சான்றிதழ் அல்ல; பணி அனுப்ப அனுமதியும் அல்ல.",
    )
    ∷ ("term_cosharing", "இடத்தைப் பகிர்தல்")
    ∷ (
      "term_cosharing_d",
      "இரு குழுக்கள் ஒரே இரவில் ஒரே இடத்தில் ஒரே ஆக்கிரமிப்பின் கீழ் வேலை செய்வது; தனித்தனி இரவுகள் எடுப்பதற்குப் பதிலாக.",
    )
    ∷ ("term_eclo", "நீட்டிக்கப்பட்ட இரவு (ECLO)")
    ∷ (
      "term_eclo_d",
      "வேலை நேரம் பெற முன்னதாக மூடுவது அல்லது தாமதமாகத் திறப்பது. கிட்டத்தட்ட அரை இரவு கூடுதல் கிடைக்கும்; பயணிகள் சேவை பாதிக்கப்படும்.",
    )
    ∷ ("term_possession", "ஆக்கிரமிப்பு")
    ∷ (
      "term_possession_d",
      "ஒரு குழு தண்டவாளப் பகுதியில் வேலை செய்யக்கூடிய முன்பதிவு செய்யப்பட்ட காலம். ஓர் இடத்தில் ஓர் இரவில் சிலவே பொருந்தும்.",
    )
    ∷ ("term_published", "வெளியிடப்பட்டது")
    ∷ (
      "term_published_d",
      "அங்கீகரிக்கப்பட்ட அனுமதிப்பவர் இந்தச் சரியான திட்டத்தை ஒப்புதல் அளித்துள்ளார். சகாக்கள் இதைப் பார்ப்பர்; பிந்தைய திருத்தம் இதை அமைதியாக மேலெழுதாது.",
    )
    ∷ ("try_sample", "மாதிரித் திட்டத்தை முயற்சி")
    ∷ ("unpublish", "திரும்பப் பெறு")
    ∷ (
      "unpublish_p",
      "அது சரிபார்க்கப்பட்ட நிலைக்குத் திரும்பும்; சகாக்கள் அதைத் தற்போதையதாகக் காண மாட்டார்கள். அசல் அனுமதியின் பதிவு வைக்கப்படும்.",
    )
    ∷ ("unpublish_title", "இந்த அட்டவணையைத் திரும்பப் பெறவா?")
    ∷ ("unpublish_why", "காரணம்")
    ∷ ("unpublish_why_ph", "ஏன் திரும்பப் பெறப்படுகிறது?")
    ∷ ("upload_choose", "கோப்புகளைத் தேர்வுசெய்…")
    ∷ ("upload_continue", "கோப்புகளைச் சரிபார்த்துத் தொடர்")
    ∷ ("upload_drop", "எட்டு CSV கோப்புகளை இங்கே விடவும்")
    ∷ ("upload_out1", "இரவு வாரியான அணுகல் அட்டவணை")
    ∷ ("upload_out2", "ஒவ்வொரு பணியும் ஒவ்வொரு வாரமும் ஆக்கிரமிக்கும் இடங்கள்")
    ∷ ("upload_out3", "ஒவ்வொரு ஒப்பந்தத்திற்கும் எதிர்பார்க்கப்படும் நிறைவு தேதி")
    ∷ ("upload_produces", "நீங்கள் பெறுவது")
    ∷ ("upload_produces_p", "இந்தத் தரவிலிருந்து மூன்று சூழ்நிலைகளுக்கும் பயன்பாடு உருவாக்கும்:")
    ∷ ("upload_title", "திட்டத் தரவு")
    ∷ (
      "upload_what",
      "எட்டுக் கோப்புகள் வலையமைப்பு, ஒப்பந்தங்கள், செய்ய வேண்டிய பணிகளை விவரிக்கின்றன. அனைத்தையும் சேர்த்து இழுத்துவிடலாம் அல்லது தேர்வுசெய்யலாம்; ஏற்கெனவே தேர்ந்தெடுத்தவை வைக்கப்படும்.",
    )
    ∷ ("username", "பயனர் பெயர்")
    ∷ ("w_abbr", "வா")
    ∷ ("why_because", "தடையாக உள்ள விதி:")
    ∷ ("why_check", "சரிபார்")
    ∷ ("why_checking", "சரிபார்க்கிறது…")
    ∷ (
      "why_help",
      "நீங்கள் தேர்ந்தெடுக்கும் வாரத்தில் இந்தப் பணிக்கு ஓர் இரவு கிடைக்குமா, அதன் விலை என்ன எனச் சோதிக்கவும்.",
    )
    ∷ ("why_moved", "{n} பிற பணிகள் நகரும்.")
    ∷ ("why_no", "இல்லை — விதிகளின்படி அது இயலாது.")
    ∷ ("why_title", "வேறு வாரம் ஏன் இயலாது?")
    ∷ (
      "why_unknown",
      "கால வரம்பிற்குள் தீர்மானிக்க முடியவில்லை. இது “இயலாது” என்பதற்குச் சமம் அல்ல.",
    )
    ∷ ("why_yes", "ஆம் — அதை அங்கே நகர்த்த முடியும்.")
    ∷ (
      "wizard_lede",
      "நான்கு படிகள். எப்போது வேண்டுமானாலும் பின் செல்லலாம்; நீங்கள் அனுப்பத் தேர்ந்தெடுக்கும் வரை எதுவும் அனுப்பப்படாது.",
    )
    ∷ ("wizard_title", "ஒரு திட்டத்தை உருவாக்கு")
    ∷ ("word_contracts", "ஒப்பந்தங்கள்")
    ∷ ("word_days", "நாட்கள்")
    ∷ ("word_jobs", "பணிகள்")
    ∷ ("word_nights", "இரவுகள்")
    ∷ ("word_scenario", "சூழ்நிலை")
    ∷ ("word_week", "வாரம்")
    ∷ ("word_weeks", "வாரங்கள்")
    ∷ []
