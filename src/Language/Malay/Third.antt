-- ===== src/Language/Malay/Third.antt =====
-- web/i18n.js, lines 522 to 621: the third part of the Malay table.
use chocobofix.Prelude.{String, List, [], ◌∷◌}

unfoldable pub malay_third : List (String × String)
malay_third =
    (
      "review_bad",
      "Satu jadual tidak lulus semakan peraturan. Ia disimpan untuk pemeriksaan tetapi belum sedia diterbitkan.",
    )
    ∷ (
      "review_checked_means",
      "\"Disemak\" bermaksud ia lulus penyemak peraturan kami sendiri. Itu bukan pensijilan rasmi dan bukan kebenaran untuk melaksanakan kerja.",
    )
    ∷ ("review_done", "Selesai dan buka projek")
    ∷ ("review_late_caption", "Pilih kontrak untuk melihat kerja di sebaliknya.")
    ∷ ("review_none_late", "Setiap kontrak siap pada atau sebelum tarikh dirancang.")
    ∷ ("review_ok", "{n} jadual dihasilkan dan lulus semakan peraturan.")
    ∷ ("review_saved", "Disimpan pada pelayan sebagai versi baharu.")
    ∷ ("role_administrator", "Pentadbir")
    ∷ ("role_administrator_what", "menguruskan akaun, tetapi tidak boleh menerbitkan jadual")
    ∷ ("role_approver", "Pelulus")
    ∷ (
      "role_approver_what", "boleh menerbitkan jadual yang disemak, tetapi tidak boleh menciptanya",
    )
    ∷ ("role_planner", "Perancang")
    ∷ ("role_planner_what", "boleh mengimport data, menjana jadual dan menyediakan semakan")
    ∷ ("role_viewer", "Pemerhati")
    ∷ ("role_viewer_what", "boleh melihat jadual diterbitkan dan memuat turunnya")
    ∷ ("scen_A", "Kekalkan had akses sedia ada")
    ∷ (
      "scen_A_d",
      "Akses waktu malam kekal seperti data benarkan. Tiada malam tambahan dan tiada malam lanjutan. Satu-satunya yang boleh berubah ialah bila kerja selesai, jadi kontrak keutamaan rendah tergelincir dahulu.",
    )
    ∷ ("scen_B", "Penuhi tarikh siap yang dirancang")
    ∷ (
      "scen_B_d",
      "Tiada yang siap lewat. Jika itu memerlukan malam tambahan atau malam lanjutan, pelan mengambilnya dan kosnya dilaporkan.",
    )
    ∷ ("scen_C", "Benarkan akses tambahan terhad")
    ∷ (
      "scen_C_d",
      "Satu keseimbangan. Kelewatan, malam tambahan dan malam lanjutan semuanya dinilai antara satu sama lain. Akses tambahan dihadkan kepada satu malam bagi setiap tempat setiap minggu.",
    )
    ∷ ("scen_all", "Ketiga-tiganya")
    ∷ ("scen_all_d", "Menjana A, B dan C supaya kosnya boleh dibandingkan bersebelahan. Disyorkan.")
    ∷ ("schedule_contracts", "Tarikh siap kontrak")
    ∷ ("schedule_detail", "Kerja dipilih")
    ∷ (
      "schedule_lede",
      "Setiap bar ialah satu malam kerja. Pilih kerja untuk melihat ke mana ia pergi dan apa yang dihalangnya.",
    )
    ∷ (
      "schedule_net_help",
      "Lebih tebal dan gelap bermakna lebih banyak kapasiti malam tempat itu digunakan. Merah bermakna penuh.",
    )
    ∷ ("schedule_network", "Sesibuk mana rangkaian")
    ∷ ("schedule_pick", "Pilih kerja dalam garis masa untuk melihat butirannya.")
    ∷ ("schedule_timeline", "Bila kerja berlaku")
    ∷ ("settings_account", "Akaun anda")
    ∷ ("settings_accounts", "Akaun")
    ∷ (
      "settings_lede",
      "Akaun anda, apa yang peranan anda benarkan, dan bagaimana penggunaan ini mengendalikan data.",
    )
    ∷ ("settings_may", "Peranan ini boleh")
    ∷ ("settings_privacy", "Privasi dan data")
    ∷ ("settings_role", "Peranan")
    ∷ ("show_tech", "Tunjukkan butiran teknikal")
    ∷ ("signin", "Log masuk")
    ∷ (
      "signin_first",
      "Belum ada akaun. Butiran yang anda masukkan akan mencipta pentadbir pertama.",
    )
    ∷ (
      "signin_lede",
      "Rancang kerja mana mendapat landasan, pada malam mana — dan semak jawapannya sebelum sesiapa bertindak.",
    )
    ∷ (
      "signin_note",
      "Akaun dicipta oleh pentadbir. Tiada pendaftaran sendiri, dan kata laluan tidak pernah dihantar melalui e-mel.",
    )
    ∷ ("signout", "Log keluar")
    ∷ ("stage_check", "Semak")
    ∷ ("stage_generate", "Jana")
    ∷ ("stage_review", "Semak semula")
    ∷ ("stage_upload", "Muat naik")
    ∷ ("state_checked", "Disemak")
    ∷ ("state_failed", "Gagal semakan")
    ∷ ("state_none", "Belum dijana")
    ∷ ("state_outdated", "Lapuk")
    ∷ ("state_published", "Diterbitkan")
    ∷ ("state_superseded", "Digantikan")
    ∷ ("term_buffer", "Penampan keselamatan")
    ∷ (
      "term_buffer_d",
      "Landasan tambahan yang dikosongkan di luar tapak kerja supaya tiada yang boleh melanggarnya. Kerja rel hidup turut menjejaskan arah bertentangan.",
    )
    ∷ ("term_checked", "Disemak")
    ∷ (
      "term_checked_d",
      "Pelan lulus penyemak peraturan kami sendiri. Itu bukan pensijilan rasmi dan bukan kebenaran untuk melaksanakan kerja.",
    )
    ∷ ("term_cosharing", "Berkongsi slot")
    ∷ (
      "term_cosharing_d",
      "Dua pasukan bekerja di tempat sama pada malam sama di bawah satu milikan, bukannya mengambil satu malam setiap satu.",
    )
    ∷ ("term_eclo", "Malam lanjutan (ECLO)")
    ∷ (
      "term_eclo_d",
      "Menutup lebih awal atau membuka lewat untuk mendapat masa kerja. Ia memberi kira-kira separuh malam tambahan, dan mengorbankan perkhidmatan penumpang.",
    )
    ∷ ("term_possession", "Milikan")
    ∷ (
      "term_possession_d",
      "Tempoh yang ditempah apabila pasukan boleh bekerja pada satu bahagian landasan. Hanya beberapa sahaja muat di satu tempat pada satu malam.",
    )
    ∷ ("term_published", "Diterbitkan")
    ∷ (
      "term_published_d",
      "Pelulus yang diberi kuasa meluluskan pelan tepat ini. Rakan sekerja melihatnya; semakan kemudian tidak menimpanya secara senyap.",
    )
    ∷ ("try_sample", "Cuba projek contoh")
    ∷ ("unpublish", "Tarik balik")
    ∷ (
      "unpublish_p",
      "Ia kembali kepada disemak, dan rakan sekerja tidak lagi melihatnya sebagai semasa. Rekod kelulusan asal dikekalkan.",
    )
    ∷ ("unpublish_title", "Tarik balik jadual ini?")
    ∷ ("unpublish_why", "Sebab")
    ∷ ("unpublish_why_ph", "Mengapa ini ditarik balik?")
    ∷ ("upload_choose", "Pilih fail…")
    ∷ ("upload_continue", "Semak fail dan teruskan")
    ∷ ("upload_drop", "Lepaskan lapan fail CSV di sini")
    ∷ ("upload_out1", "jadual akses malam demi malam")
    ∷ ("upload_out2", "lokasi yang diduduki setiap kerja setiap minggu")
    ∷ ("upload_out3", "tarikh siap dijangka bagi setiap kontrak")
    ∷ ("upload_produces", "Apa yang anda akan dapat")
    ∷ ("upload_produces_p", "Daripada data ini aplikasi menghasilkan, untuk setiap tiga senario:")
    ∷ ("upload_title", "Data projek")
    ∷ (
      "upload_what",
      "Lapan fail menerangkan rangkaian, kontrak dan kerja yang perlu dilakukan. Lepaskan semuanya bersama atau pilihnya; yang telah dipilih akan dikekalkan.",
    )
    ∷ ("username", "Nama pengguna")
    ∷ ("w_abbr", "m")
    ∷ ("why_because", "Peraturan yang menghalang:")
    ∷ ("why_check", "Semak")
    ∷ ("why_checking", "Menyemak…")
    ∷ (
      "why_help",
      "Uji sama ada kerja ini boleh mendapat satu malam pada minggu pilihan anda, dan berapa kosnya.",
    )
    ∷ ("why_moved", "{n} kerja lain akan berpindah.")
    ∷ ("why_no", "Tidak — itu mustahil di bawah peraturan.")
    ∷ ("why_title", "Mengapa bukan minggu lain?")
    ∷ ("why_unknown", "Tidak dapat ditentukan dalam had masa. Itu bukan bermakna mustahil.")
    ∷ ("why_yes", "Ya — ia boleh dipindahkan ke sana.")
    ∷ (
      "wizard_lede",
      "Empat langkah. Anda boleh kembali bila-bila masa, dan tiada apa dihantar sehingga anda memilih untuk menghantarnya.",
    )
    ∷ ("wizard_title", "Cipta pelan")
    ∷ ("word_contracts", "kontrak")
    ∷ ("word_days", "hari")
    ∷ ("word_jobs", "kerja")
    ∷ ("word_nights", "malam")
    ∷ ("word_scenario", "Senario")
    ∷ ("word_week", "Minggu")
    ∷ ("word_weeks", "minggu")
    ∷ []
