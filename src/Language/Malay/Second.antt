-- ===== src/Language/Malay/Second.antt =====
-- web/i18n.js, lines 420 to 521: the second part of the Malay table.
use chocobofix.Prelude.{String, List, [], ◌∷◌}

unfoldable pub malay_second : List (String × String)
malay_second =
    (
      "download_bad",
      "Pelan ini tidak lulus semakan peraturan. Jangan hantarnya sebagai jawapan sah.",
    )
    ∷ (
      "download_fallback",
      "Pelan ini melanggar dasar senarionya sendiri. Ia tidak boleh diterbitkan dan tidak boleh dihantar sebagai jawapan yang mematuhi.",
    )
    ∷ ("download_p", "Tiga fail pertandingan untuk Senario {s} versi {v}.")
    ∷ ("download_title", "Muat turun fail")
    ∷ ("err_need_both", "Masukkan nama pengguna dan kata laluan.")
    ∷ ("err_need_username", "Masukkan nama pengguna.")
    ∷ ("err_need_password", "Masukkan kata laluan.")
    ∷ (
      "err_offline",
      "Tidak dapat menghubungi pelayan. Kerja anda tidak hilang; cuba lagi apabila sambungan kembali.",
    )
    ∷ ("err_session", "Sesi anda tamat. Sila log masuk semula.")
    ∷ ("file_missing", "belum dipilih")
    ∷ ("files_ignored", "Fail yang bukan salah satu daripada lapan itu diabaikan.")
    ∷ ("files_ready", "fail sedia")
    ∷ ("flag_fallback", "Melanggar senarionya")
    ∷ ("flag_strict", "Penampan ketat")
    ∷ ("gen_advanced", "Tetapan lanjutan")
    ∷ ("gen_budget", "Had masa (saat)")
    ∷ (
      "gen_budget_h",
      "Berapa lama penyelesai boleh mencari. Lebih lama boleh menemui pelan lebih baik; ia tidak pernah mengubah peraturan.",
    )
    ∷ ("gen_cancelled", "Dihentikan.")
    ∷ (
      "gen_conflict",
      "Orang lain mengubah projek ini semasa anda bekerja. Muat semula untuk melihat perubahan mereka, kemudian cuba lagi.",
    )
    ∷ ("gen_done", "Selesai.")
    ∷ ("gen_failed", "Penyelesai tidak dapat menghasilkan pelan.")
    ∷ (
      "gen_lede",
      "Setiap senario mengekalkan perkara berbeza. Jana ketiga-tiganya untuk membandingkannya.",
    )
    ∷ ("gen_queued", "Menunggu penyelesai kosong…")
    ∷ ("gen_rule1", "Setiap kerja mendapat semua malam yang diperlukan. Tiada yang digugurkan.")
    ∷ (
      "gen_rule2",
      "Penampan keselamatan, kesan rel hidup dan terowong pertukaran berkongsi sentiasa dihormati.",
    )
    ∷ (
      "gen_rule3",
      "Tiada kerja bermula sebelum permulaan yang dirancang, atau sebelum kerja yang bergantung padanya selesai.",
    )
    ∷ ("gen_rule4", "Satu tempat hanya boleh menampung beberapa milikan pada satu malam.")
    ∷ ("gen_rules", "Apa yang tidak pernah berubah")
    ∷ ("gen_rules_p", "Apa pun senario yang anda pilih, perkara ini tidak pernah dilonggarkan:")
    ∷ ("gen_run", "Jana jadual")
    ∷ ("gen_running", "Sedang bekerja…")
    ∷ ("gen_stop", "Henti")
    ∷ ("gen_title", "Apa yang pelan patut lindungi?")
    ∷ (
      "gen_truthful",
      "Tiada peratusan kemajuan: penyelesai tidak boleh menyatakan sejauh mana ia telah pergi. Berhenti akan mengekalkan pelan lengkap terbaik yang telah ditemuinya.",
    )
    ∷ ("help", "Bantuan")
    ∷ (
      "help_p1",
      "TrackAccess menukar keperluan penyelenggaraan dan akses landasan waktu malam yang terhad menjadi jadual, kemudian menyemak jadual itu terhadap peraturan operasi sebelum sesiapa bergantung padanya.",
    )
    ∷ (
      "help_privacy",
      "Aplikasi ini tidak menyimpan data peribadi selain nama akaun yang anda gunakan untuk log masuk. Lihat Tetapan untuk butiran.",
    )
    ∷ ("help_terms", "Istilah yang digunakan di sini")
    ∷ ("history_audit", "Log aktiviti")
    ∷ ("history_empty", "Belum ada versi.")
    ∷ (
      "history_immutable",
      "Versi tidak pernah berubah. Penerbitan merekodkan pelan tepat dan keputusan semakan yang telah disemak, jadi suntingan kemudian tidak boleh mewarisi kelulusan itu.",
    )
    ∷ ("history_lede", "Setiap versi setiap jadual, siapa membuatnya, dan siapa menerbitkannya.")
    ∷ ("history_versions", "Versi")
    ∷ ("lg_eclo", "malam lanjutan")
    ∷ ("lg_late", "selepas tarikh dirancang")
    ∷ ("lg_night", "malam kerja")
    ∷ ("loading", "Memuatkan…")
    ∷ ("m_extra", "Malam tambahan / lanjutan")
    ∷ ("m_extra_note", "melebihi akses biasa")
    ∷ ("m_late", "Kontrak siap lewat")
    ∷ ("m_late_note", "berbanding tarikh dirancang")
    ∷ ("m_penalty", "Skor penalti")
    ∷ ("m_penalty_note", "lebih rendah lebih baik; 0 sempurna")
    ∷ ("m_workload", "Semua kerja dijadualkan")
    ∷ ("m_workload_note", "setiap kerja mendapat semua malamnya")
    ∷ ("m_workload_ok", "Ya")
    ∷ ("nav_activities", "Aktiviti")
    ∷ ("nav_history", "Sejarah")
    ∷ ("nav_overview", "Ringkasan")
    ∷ ("nav_projects", "Projek")
    ∷ ("nav_schedule", "Jadual")
    ∷ ("nav_settings", "Tetapan")
    ∷ ("next_approve", "Satu jadual telah disemak dan menunggu seseorang menerbitkannya.")
    ∷ (
      "next_await",
      "Satu jadual telah disemak. Pelulus perlu menerbitkannya sebelum rakan sekerja boleh bergantung padanya.",
    )
    ∷ (
      "next_failed",
      "Satu jadual tidak lulus semakan peraturan. Buka Sejarah untuk melihat sebabnya.",
    )
    ∷ ("nothing_here", "Belum ada apa-apa di sini.")
    ∷ ("of", "daripada")
    ∷ ("on_time", "Tepat masa")
    ∷ ("overview_empty_h", "Belum ada jadual")
    ∷ ("overview_empty_p", "Tambah data projek dan jana jadual untuk bermula.")
    ∷ ("overview_lede", "Kedudukan projek ini, dan apa yang perlu dilakukan seterusnya.")
    ∷ ("overview_need_planner", "Peranan anda boleh melihat jadual tetapi tidak menciptanya.")
    ∷ ("overview_newplan", "Cipta pelan lain")
    ∷ ("overview_open", "Buka jadual")
    ∷ ("overview_start", "Cipta pelan")
    ∷ ("overview_versions", "Versi")
    ∷ ("password", "Kata laluan")
    ∷ ("pri_1", "Tinggi")
    ∷ ("pri_2", "Biasa")
    ∷ ("pri_3", "Rendah")
    ∷ (
      "privacy_l1",
      "Nama akaun anda dan cincangan sehala kata laluan anda. Kata laluan tidak pernah disimpan atau ditunjukkan.",
    )
    ∷ (
      "privacy_l2",
      "Data akses landasan yang anda muat naik, disimpan dalam projek anda dan boleh dilihat oleh anda, pelulus dan pentadbir.",
    )
    ∷ ("privacy_l3", "Jadual yang anda jana, dan siapa menerbitkannya.")
    ∷ ("privacy_l4", "Log aktiviti tindakan penting, tanpa butiran peribadi selain nama akaun.")
    ∷ (
      "privacy_p1",
      "Penggunaan ini menyimpan hanya apa yang diperlukan untuk menjadualkan kerja dan menunjukkan siapa melakukan apa.",
    )
    ∷ (
      "privacy_p2",
      "Tiada data meninggalkan pelayan ini. Tiada analitis, tiada perkhidmatan pihak ketiga dan tiada AI luaran. Memadam akaun tidak memadam rekod projek dikongsi, yang milik organisasi.",
    )
    ∷ ("projects_create", "Cipta projek")
    ∷ ("projects_empty", "Belum ada projek.")
    ∷ (
      "projects_lede",
      "Projek menyimpan satu set data akses landasan dan setiap jadual yang dibuat daripadanya.",
    )
    ∷ ("projects_name_ph", "Contoh: Pembaharuan Utara, S1")
    ∷ ("projects_new", "Projek baharu")
    ∷ (
      "projects_new_help",
      "Beri nama yang anda akan kenal kemudian. Anda boleh menambah data pada langkah seterusnya.",
    )
    ∷ ("projects_readonly", "Peranan anda boleh melihat projek tetapi tidak menciptanya.")
    ∷ ("projects_yours", "Projek anda")
    ∷ ("publish", "Terbitkan")
    ∷ ("publish_check", "Cap jari semakan")
    ∷ ("publish_failed", "Tidak dapat menerbitkan")
    ∷ ("publish_p1", "Rakan sekerja akan melihat Senario {s} versi {v} sebagai jadual semasa.")
    ∷ (
      "publish_p2",
      "Penerbitan merekodkan pelan tepat dan keputusan semakan yang ditunjukkan di sini. Jika mana-mana berubah kemudian, kelulusan tidak berterusan.",
    )
    ∷ ("publish_plan", "Cap jari pelan")
    ∷ ("publish_title", "Terbitkan jadual ini?")
    ∷ ("reload", "Muat semula")
    ∷ []
