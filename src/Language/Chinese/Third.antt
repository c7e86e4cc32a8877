-- ===== src/Language/Chinese/Third.antt =====
-- web/i18n.js, lines 1134 to 1233: the third part of the Chinese table.
use chocobofix.Prelude.{String, List, [], ◌∷◌}

unfoldable pub chinese_third : List (String × String)
chinese_third =
    ("review_bad", "有排程未通过规则校验。已保留以供检查，但不可发布。")
    ∷ ("review_checked_means", "“已校验”指其通过了我们自己的规则校验器。这并非官方认证，也不构成派工许可。")
    ∷ ("review_done", "完成并打开项目")
    ∷ ("review_late_caption", "选择合同可查看其背后的作业。")
    ∷ ("review_none_late", "每份合同都在计划日期当天或之前完工。")
    ∷ ("review_ok", "已生成 {n} 份排程，并通过规则校验。")
    ∷ ("review_saved", "已作为新版本保存在服务器上。")
    ∷ ("role_administrator", "管理员")
    ∷ ("role_administrator_what", "管理账户，但不能发布排程")
    ∷ ("role_approver", "审批人")
    ∷ ("role_approver_what", "可发布已审核的排程，但不能创建排程")
    ∷ ("role_planner", "计划员")
    ∷ ("role_planner_what", "可导入数据、生成排程并准备修订")
    ∷ ("role_viewer", "查看者")
    ∷ ("role_viewer_what", "可查看并下载已发布的排程")
    ∷ ("scen_A", "维持现有使用权上限")
    ∷ ("scen_A_d", "夜间使用权严格按数据所允许的范围。不得增加夜间，也不得延长夜间。唯一可变的是完工时间，因此低优先级合同先行延后。")
    ∷ ("scen_B", "满足计划完工日期")
    ∷ ("scen_B_d", "任何工程都不得延期。若需为此增加夜间或延长夜间，方案会采用，并如实报告代价。")
    ∷ ("scen_C", "允许有限的额外使用权")
    ∷ ("scen_C_d", "一种平衡。延期、额外夜间与延长夜间相互计价权衡。额外使用权限制为每地每周一夜。")
    ∷ ("scen_all", "三种全部")
    ∷ ("scen_all_d", "生成 A、B、C，便于并排比较代价。推荐。")
    ∷ ("schedule_contracts", "合同完工日期")
    ∷ ("schedule_detail", "所选作业")
    ∷ ("schedule_lede", "每根条形代表一夜工程。选择某项作业可查看其位置及所阻断的范围。")
    ∷ ("schedule_net_help", "越粗越深表示该地点的夜间容量占用越多。红色表示已满。")
    ∷ ("schedule_network", "线网繁忙程度")
    ∷ ("schedule_pick", "在时间轴中选择一项作业以查看详情。")
    ∷ ("schedule_timeline", "工程何时进行")
    ∷ ("settings_account", "您的账户")
    ∷ ("settings_accounts", "账户")
    ∷ ("settings_lede", "您的账户、角色所允许的操作，以及本部署如何处理数据。")
    ∷ ("settings_may", "该角色可以")
    ∷ ("settings_privacy", "隐私与数据")
    ∷ ("settings_role", "角色")
    ∷ ("show_tech", "显示技术细节")
    ∷ ("signin", "登录")
    ∷ ("signin_first", "尚无账户。您输入的信息将创建首位管理员。")
    ∷ ("signin_lede", "安排哪项工程在哪些夜间获得线路使用权——并在任何人据此行动前先核对答案。")
    ∷ ("signin_note", "账户由管理员创建。不支持自助注册，也绝不通过邮件发送密码。")
    ∷ ("signout", "退出")
    ∷ ("stage_check", "校验")
    ∷ ("stage_generate", "生成")
    ∷ ("stage_review", "复核")
    ∷ ("stage_upload", "上传")
    ∷ ("state_checked", "已校验")
    ∷ ("state_failed", "未通过校验")
    ∷ ("state_none", "未生成")
    ∷ ("state_outdated", "已过期")
    ∷ ("state_published", "已发布")
    ∷ ("state_superseded", "已被替换")
    ∷ ("term_buffer", "安全缓冲")
    ∷ ("term_buffer_d", "在作业区之外保持净空的额外线路，以免发生冲撞。带电轨作业还会影响对向。")
    ∷ ("term_checked", "已校验")
    ∷ ("term_checked_d", "方案通过了我们自己的规则校验器。这并非官方认证，也不构成派工许可。")
    ∷ ("term_cosharing", "共用时段")
    ∷ ("term_cosharing_d", "两支队伍在同一夜、同一地点、同一次占用下施工，而非各占一夜。")
    ∷ ("term_eclo", "延长夜间（ECLO）")
    ∷ ("term_eclo_d", "提前关闭或延后开放以换取作业时间。约可多出半个夜间，代价是旅客服务受影响。")
    ∷ ("term_possession", "占用")
    ∷ ("term_possession_d", "已预订的时段，作业队可在某段线路施工。同一地点同一夜只能容纳有限数量。")
    ∷ ("term_published", "已发布")
    ∷ ("term_published_d", "经授权的审批人已对这一确切方案签署。同事可以看到它；后续修订不会无声覆盖它。")
    ∷ ("try_sample", "试用示例项目")
    ∷ ("unpublish", "撤回")
    ∷ ("unpublish_p", "它将回到“已校验”状态，同事不再视其为当前排程。原批准记录予以保留。")
    ∷ ("unpublish_title", "撤回此排程？")
    ∷ ("unpublish_why", "原因")
    ∷ ("unpublish_why_ph", "为何撤回？")
    ∷ ("upload_choose", "选择文件…")
    ∷ ("upload_continue", "校验文件并继续")
    ∷ ("upload_drop", "将八个 CSV 文件拖到此处")
    ∷ ("upload_out1", "逐夜的使用权排程")
    ∷ ("upload_out2", "每项作业每周占用的地点")
    ∷ ("upload_out3", "每份合同的预计完工日期")
    ∷ ("upload_produces", "您将得到什么")
    ∷ ("upload_produces_p", "根据这些数据，应用将为三种情景各自生成：")
    ∷ ("upload_title", "项目数据")
    ∷ ("upload_what", "八个文件描述线网、合同与待办工程。可一并拖入或逐个选择；已选好的文件会保留。")
    ∷ ("username", "用户名")
    ∷ ("w_abbr", "第")
    ∷ ("why_because", "构成阻碍的规则是：")
    ∷ ("why_check", "检查")
    ∷ ("why_checking", "检查中…")
    ∷ ("why_help", "测试该作业能否在您指定的周获得一夜使用权，以及代价为何。")
    ∷ ("why_moved", "另有 {n} 项作业会随之移动。")
    ∷ ("why_no", "不行——在规则下这不可能。")
    ∷ ("why_title", "为何不能安排在其他周？")
    ∷ ("why_unknown", "在时限内无法确定。这与“不可能”并不相同。")
    ∷ ("why_yes", "可以——能移到那里。")
    ∷ ("wizard_lede", "四个步骤。随时可以返回，在您选择发送之前不会发送任何内容。")
    ∷ ("wizard_title", "创建方案")
    ∷ ("word_contracts", "份合同")
    ∷ ("word_days", "天")
    ∷ ("word_jobs", "项作业")
    ∷ ("word_nights", "夜")
    ∷ ("word_scenario", "情景")
    ∷ ("word_week", "周")
    ∷ ("word_weeks", "周")
    ∷ []
