-- ===== src/Labels.antt =====
-- The texts of the React client's settings: client/src/lib/i18n.js.
mod Filled
mod Tests
use chocobofix.Prelude.{String, string_eq, Option, none, some, List, [], ◌∷◌, if◌then◌else◌, ◌===◌}
use chocobofix.Prelude.JsMap.{get}

abbrev pub english_labels : List (String × String)
english_labels =
    ("settings", "Settings")
    ∷ ("appearance", "appearance")
    ∷ ("theme_system", "Follow the system")
    ∷ ("theme_light", "Light")
    ∷ ("theme_dark", "Dark")
    ∷ ("theme_note", "The system setting is used unless you choose otherwise.")
    ∷ ("text_size", "text size")
    ∷ ("text_normal", "Normal")
    ∷ ("text_large", "Large")
    ∷ ("text_larger", "Larger")
    ∷ ("motion", "motion")
    ∷ ("motion_system", "Follow the system")
    ∷ ("motion_reduced", "Reduce motion")
    ∷ ("language", "language")
    ∷ ("translation_review", "This translation needs review by a native speaker.")
    ∷ []

abbrev pub malay_labels : List (String × String)
malay_labels =
    ("settings", "Tetapan")
    ∷ ("appearance", "rupa")
    ∷ ("theme_system", "Ikut sistem")
    ∷ ("theme_light", "Cerah")
    ∷ ("theme_dark", "Gelap")
    ∷ ("theme_note", "Tetapan sistem digunakan melainkan anda memilih yang lain.")
    ∷ ("text_size", "saiz teks")
    ∷ ("text_normal", "Biasa")
    ∷ ("text_large", "Besar")
    ∷ ("text_larger", "Lebih besar")
    ∷ ("motion", "gerakan")
    ∷ ("motion_system", "Ikut sistem")
    ∷ ("motion_reduced", "Kurangkan gerakan")
    ∷ ("language", "bahasa")
    ∷ ("translation_review", "Terjemahan ini perlu disemak oleh penutur asli.")
    ∷ []

abbrev pub chinese_labels : List (String × String)
chinese_labels =
    ("settings", "设置")
    ∷ ("appearance", "外观")
    ∷ ("theme_system", "跟随系统")
    ∷ ("theme_light", "浅色")
    ∷ ("theme_dark", "深色")
    ∷ ("theme_note", "除非另行选择，否则使用系统设置。")
    ∷ ("text_size", "文字大小")
    ∷ ("text_normal", "标准")
    ∷ ("text_large", "大")
    ∷ ("text_larger", "更大")
    ∷ ("motion", "动效")
    ∷ ("motion_system", "跟随系统")
    ∷ ("motion_reduced", "减少动效")
    ∷ ("language", "语言")
    ∷ ("translation_review", "此翻译需要母语者校对。")
    ∷ []

abbrev pub tamil_labels : List (String × String)
tamil_labels =
    ("settings", "அமைப்புகள்")
    ∷ ("appearance", "தோற்றம்")
    ∷ ("theme_system", "கணினியைப் பின்பற்று")
    ∷ ("theme_light", "வெளிர்")
    ∷ ("theme_dark", "கரும்")
    ∷ ("theme_note", "நீங்கள் வேறு ஒன்றைத் தேர்ந்தெடுக்காத வரை கணினி அமைப்பு பயன்படுத்தப்படும்.")
    ∷ ("text_size", "எழுத்து அளவு")
    ∷ ("text_normal", "இயல்பு")
    ∷ ("text_large", "பெரிது")
    ∷ ("text_larger", "மிகப் பெரிது")
    ∷ ("motion", "அசைவு")
    ∷ ("motion_system", "கணினியைப் பின்பற்று")
    ∷ ("motion_reduced", "அசைவைக் குறை")
    ∷ ("language", "மொழி")
    ∷ ("translation_review", "இந்த மொழிபெயர்ப்பை தாய்மொழி பேசுபவர் சரிபார்க்க வேண்டும்.")
    ∷ []

-- `STRINGS`.
abbrev pub strings : List (String × List (String × String))
strings =
    ("en", english_labels)
    ∷ ("ms", malay_labels)
    ∷ ("zh", chinese_labels)
    ∷ ("ta", tamil_labels)
    ∷ []

-- `||` on a text that may be missing: the empty text is falsy.
abbrev pub or_label : Option String → String → String
or_label none d = d
or_label (some s) d = if s === "" then d else s

abbrev pub label_in : String → Option (List (String × String)) → Option String
label_in key none = none
label_in key (some texts) = get key texts

pub t : String → String → String
t lang key = or_label (label_in key (get lang strings)) (or_label (get key english_labels) key)
