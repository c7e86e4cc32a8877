-- ===== src/Language/Malay/First.antt =====
-- web/i18n.js, lines 318 to 419: the first part of the Malay table.
use chocobofix.Prelude.{String, List, [], ◌∷◌}

unfoldable pub malay_first : List (String × String)
malay_first =
    ("acct_active", "Aktif")
    ∷ ("acct_add", "Tambah akaun")
    ∷ ("acct_create", "Cipta")
    ∷ ("acct_disable", "Nyahaktifkan")
    ∷ ("acct_disabled", "Dinyahaktifkan")
    ∷ ("acct_enable", "Aktifkan")
    ∷ (
      "acct_note",
      "Pentadbir menguruskan akaun tetapi tidak boleh menerbitkan jadual, dan pelulus tidak boleh menciptanya. Tugas itu diasingkan dengan sengaja.",
    )
    ∷ ("acct_you", "Ini anda")
    ∷ ("activities_all", "Kerja")
    ∷ ("activities_lede", "Setiap kerja dalam data projek ini, dan malam yang diberikan kepadanya.")
    ∷ ("activities_search", "Cari kerja, kontrak atau bahagian")
    ∷ ("adjust", "Laraskan jadual")
    ∷ ("adjust_churn", "{n} minggu-kerja berubah keseluruhannya.")
    ∷ ("adjust_from", "Dari minggu")
    ∷ (
      "adjust_impossible",
      "Kerja tidak dapat dimuatkan ke dalam akses yang berkurang. Jadual semasa tidak berubah, tetapi ia tidak lagi selamat untuk keadaan ini.",
    )
    ∷ ("adjust_left", "Malam masih ada")
    ∷ ("adjust_note", "Ini pratonton. Tiada apa diterbitkan sehingga pelulus menerbitkannya.")
    ∷ (
      "adjust_p",
      "Nyatakan tempat mana kehilangan malam dan untuk berapa lama. Jadual semasa digunakan sebagai titik permulaan, dan kerja yang tidak terjejas dikekalkan.",
    )
    ∷ ("adjust_preview", "Pratonton jadual disemak")
    ∷ ("adjust_result", "Penalti berubah dari {before} kepada {after}. {n} kerja berpindah.")
    ∷ ("adjust_title", "Laraskan jadual untuk akses berkurang")
    ∷ ("adjust_to", "Hingga minggu")
    ∷ ("adjust_where", "Tempat")
    ∷ ("adjust_working", "Mengira akibatnya…")
    ∷ ("audit_auth.login", "Log masuk")
    ∷ ("audit_auth.logout", "Log keluar")
    ∷ ("audit_authz.deny", "Ditolak (peranan)")
    ∷ ("audit_bootstrap", "Pentadbir pertama dicipta")
    ∷ ("audit_instance.upload", "Data dimuat naik")
    ∷ ("audit_job.cancel", "Penjanaan dihentikan")
    ∷ ("audit_job.create", "Penjanaan dimulakan")
    ∷ ("audit_plan.approve", "Jadual diterbitkan")
    ∷ ("audit_plan.create", "Jadual dihasilkan")
    ∷ ("audit_plan.explain", "Menyemak minggu alternatif")
    ∷ ("audit_plan.repair", "Pratonton akses berkurang")
    ∷ ("audit_plan.revoke", "Jadual ditarik balik")
    ∷ ("audit_project.create", "Projek dicipta")
    ∷ ("audit_user.create", "Akaun dicipta")
    ∷ ("audit_user.disable", "Akaun dinyahaktifkan")
    ∷ ("audit_user.enable", "Akaun diaktifkan")
    ∷ ("audit_user.role", "Peranan diubah")
    ∷ ("back", "Kembali")
    ∷ ("cancel", "Batal")
    ∷ ("check_continue", "Teruskan untuk menjana")
    ∷ ("check_contracts_note", "setiap satu dengan tarikh akhirnya")
    ∷ ("check_contracts_title", "Kontrak dalam data ini")
    ∷ ("check_failed", "{n} masalah menghalang data ini daripada digunakan.")
    ∷ ("check_failed_p", "Betulkan fail dan pilihnya semula. Fail yang baik masih ada di sini.")
    ∷ ("check_firststart", "Kerja terawal boleh bermula:")
    ∷ ("check_fix", "Pilih fail semula")
    ∷ ("check_invalidated", "{n} pelan terdahulu dibina atas data berbeza dan kini ditanda lapuk.")
    ∷ ("check_jobs_note", "setiap satu perlukan beberapa malam")
    ∷ ("check_ok", "Fail lengkap dan konsisten.")
    ∷ ("check_problems", "Apa yang perlu dibetulkan")
    ∷ ("check_window", "Tetingkap perancangan")
    ∷ ("checking", "Menyemak fail pada pelayan…")
    ∷ ("close", "Tutup")
    ∷ ("col_action", "")
    ∷ ("col_contract", "Kontrak")
    ∷ ("col_created", "Dicipta")
    ∷ ("col_detail", "Butiran")
    ∷ ("col_due", "Tarikh akhir")
    ∷ ("col_expected", "Jangka siap")
    ∷ ("col_field", "Medan")
    ∷ ("col_file", "Fail")
    ∷ ("col_given", "Malam diberi")
    ∷ ("col_job", "Kerja")
    ∷ ("col_kind", "Jenis kerja")
    ∷ ("col_late", "Lewat")
    ∷ ("col_madeby", "Dibuat oleh")
    ∷ ("col_needs", "Malam diperlukan")
    ∷ ("col_nights", "Malam diperlukan")
    ∷ ("col_owner", "Pemilik")
    ∷ ("col_penalty", "Penalti")
    ∷ ("col_priority", "Keutamaan")
    ∷ ("col_problem", "Apa yang salah")
    ∷ ("col_project", "Projek")
    ∷ ("col_publishedby", "Diterbitkan oleh")
    ∷ ("col_result", "Keputusan")
    ∷ ("col_row", "Baris")
    ∷ ("col_state", "Keadaan")
    ∷ ("col_version", "Versi")
    ∷ ("col_weeks", "Minggu")
    ∷ ("col_what", "Apa")
    ∷ ("col_when", "Bila")
    ∷ ("col_where", "Di mana")
    ∷ ("col_who", "Siapa")
    ∷ ("create_admin", "Cipta pentadbir")
    ∷ ("d_after", "Hanya selepas")
    ∷ ("d_books", "Menduduki")
    ∷ ("d_buffer", "Penampan keselamatannya turut mengosongkan {n} tempat lagi.")
    ∷ ("d_earliest", "Tidak boleh mula sebelum")
    ∷ ("d_locations", "tempat")
    ∷ ("d_none", "tiada")
    ∷ ("d_scheduled", "Malam diberi")
    ∷ ("d_unscheduled", "tidak dijadualkan")
    ∷ ("d_where", "Bahagian")
    ∷ ("d_workload", "Kerja")
    ∷ (
      "demo_p1",
      "Projek contoh menggunakan data latihan yang diterbitkan, jadi anda boleh melihat keseluruhan aliran tanpa memuat naik apa-apa.",
    )
    ∷ (
      "demo_p2",
      "Log masuk dahulu, kemudian cipta projek dan pilih \"Cuba projek contoh\" pada langkah muat naik. Jika anda menyediakannya sendiri, mulakan pelayan dengan pentadbir pertama:",
    )
    ∷ (
      "demo_p3",
      "Data contoh ditanda dengan jelas dan diasingkan daripada sebarang projek sebenar.",
    )
    ∷ ("download", "Muat turun")
    ∷ []
