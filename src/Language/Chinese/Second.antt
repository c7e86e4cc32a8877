-- ===== src/Language/Chinese/Second.antt =====
-- web/i18n.js, lines 1032 to 1133: the second part of the Chinese table.
use chocobofix.Prelude.{String, List, [], ◌∷◌}

unfoldable pub chinese_second : List (String × String)
chinese_second =
    ("download_bad", "此方案未通过规则校验。请勿作为有效答案提交。")
    ∷ ("download_fallback", "此方案违反其所属情景的策略。它不能被发布，也不得作为合规答案提交。")
    ∷ ("download_p", "情景 {s} 第 {v} 版的三个竞赛文件。")
    ∷ ("download_title", "下载文件")
    ∷ ("err_need_both", "请输入用户名和密码。")
    ∷ ("err_need_username", "请输入用户名。")
    ∷ ("err_need_password", "请输入密码。")
    ∷ ("err_offline", "无法连接服务器。您的工作没有丢失；连接恢复后请重试。")
    ∷ ("err_session", "会话已结束，请重新登录。")
    ∷ ("file_missing", "尚未选择")
    ∷ ("files_ignored", "不属于这八个的文件已被忽略。")
    ∷ ("files_ready", "个文件就绪")
    ∷ ("flag_fallback", "违反其情景")
    ∷ ("flag_strict", "严格缓冲")
    ∷ ("gen_advanced", "高级设置")
    ∷ ("gen_budget", "时间上限（秒）")
    ∷ ("gen_budget_h", "求解器可搜索多久。时间越长可能找到更优方案；它绝不改变规则。")
    ∷ ("gen_cancelled", "已停止。")
    ∷ ("gen_conflict", "在您操作期间，他人修改了本项目。请重新载入查看其更改，然后重试。")
    ∷ ("gen_done", "已完成。")
    ∷ ("gen_failed", "求解器未能生成方案。")
    ∷ ("gen_lede", "每种情景固定的内容不同。三种全部生成即可对比。")
    ∷ ("gen_queued", "等待空闲求解器…")
    ∷ ("gen_rule1", "每项作业都获得所需的全部夜间，不得删减。")
    ∷ ("gen_rule2", "安全缓冲、带电轨影响与共用换乘隧道始终得到遵守。")
    ∷ ("gen_rule3", "任何作业都不得早于计划开工，也不得早于其前置作业完成。")
    ∷ ("gen_rule4", "同一地点一夜之内只能容纳有限次占用。")
    ∷ ("gen_rules", "始终不变的部分")
    ∷ ("gen_rules_p", "无论选择哪种情景，以下内容都不会放宽：")
    ∷ ("gen_run", "生成排程")
    ∷ ("gen_running", "正在计算…")
    ∷ ("gen_stop", "停止")
    ∷ ("gen_title", "方案应优先保住什么？")
    ∷ ("gen_truthful", "没有进度百分比：求解器无法说明自己进行到何处。停止后将保留它已找到的最佳完整方案。")
    ∷ ("help", "帮助")
    ∷ ("help_p1", "TrackAccess 将维修需求与有限的夜间线路使用权转化为排程，并在任何人依赖它之前，依据运营规则对该排程进行核对。")
    ∷ ("help_privacy", "除登录所用的账户名外，本应用不存储个人数据。详见“设置”。")
    ∷ ("help_terms", "此处使用的术语")
    ∷ ("history_audit", "操作日志")
    ∷ ("history_empty", "尚无版本。")
    ∷ ("history_immutable", "版本永不更改。发布会记录经审核的确切方案与校验结果，因此后续修改无法继承该批准。")
    ∷ ("history_lede", "每份排程的每个版本，由谁生成，以及由谁发布。")
    ∷ ("history_versions", "版本")
    ∷ ("lg_eclo", "延长夜间")
    ∷ ("lg_late", "晚于计划日期")
    ∷ ("lg_night", "一夜工程")
    ∷ ("loading", "载入中…")
    ∷ ("m_extra", "额外 / 延长夜间")
    ∷ ("m_extra_note", "超出常规使用权的部分")
    ∷ ("m_late", "延期完工的合同")
    ∷ ("m_late_note", "相对其计划日期")
    ∷ ("m_penalty", "罚分")
    ∷ ("m_penalty_note", "越低越好；0 为最佳")
    ∷ ("m_workload", "全部工程已排")
    ∷ ("m_workload_note", "每项作业都拿到全部夜间")
    ∷ ("m_workload_ok", "是")
    ∷ ("nav_activities", "作业")
    ∷ ("nav_history", "历史")
    ∷ ("nav_overview", "概览")
    ∷ ("nav_projects", "项目")
    ∷ ("nav_schedule", "排程")
    ∷ ("nav_settings", "设置")
    ∷ ("next_approve", "有排程已通过校验，正等待发布。")
    ∷ ("next_await", "有排程已通过校验。需由审批人发布后，同事才能依赖它。")
    ∷ ("next_failed", "有排程未通过规则校验。请打开“历史”查看原因。")
    ∷ ("nothing_here", "这里暂时没有内容。")
    ∷ ("of", "/")
    ∷ ("on_time", "按期")
    ∷ ("overview_empty_h", "尚无排程")
    ∷ ("overview_empty_p", "添加项目数据并生成排程即可开始。")
    ∷ ("overview_lede", "本项目当前的状态，以及下一步该做什么。")
    ∷ ("overview_need_planner", "您的角色可以查看排程，但不能创建。")
    ∷ ("overview_newplan", "再创建一个方案")
    ∷ ("overview_open", "打开排程")
    ∷ ("overview_start", "创建方案")
    ∷ ("overview_versions", "版本")
    ∷ ("password", "密码")
    ∷ ("pri_1", "高")
    ∷ ("pri_2", "一般")
    ∷ ("pri_3", "低")
    ∷ ("privacy_l1", "您的账户名及密码的单向哈希。密码从不存储，也从不显示。")
    ∷ ("privacy_l2", "您上传的线路使用数据，保存在您的项目内，仅您本人、审批人与管理员可见。")
    ∷ ("privacy_l3", "您生成的排程，以及发布者。")
    ∷ ("privacy_l4", "重要操作的活动日志，除账户名外不含个人信息。")
    ∷ ("privacy_p1", "本部署仅存储排程工作与追溯操作所必需的内容。")
    ∷ ("privacy_p2", "没有数据离开本服务器。没有分析服务、没有第三方服务、没有外部 AI。删除账户不会删除属于本组织的共享项目记录。")
    ∷ ("projects_create", "创建项目")
    ∷ ("projects_empty", "尚无项目。")
    ∷ ("projects_lede", "一个项目包含一套线路使用数据，以及由它生成的全部排程。")
    ∷ ("projects_name_ph", "例如：北段更新，第一季度")
    ∷ ("projects_new", "新建项目")
    ∷ ("projects_new_help", "取一个日后便于辨认的名称。数据可在下一步添加。")
    ∷ ("projects_readonly", "您的角色可以查看项目，但不能创建。")
    ∷ ("projects_yours", "您的项目")
    ∷ ("publish", "发布")
    ∷ ("publish_check", "校验指纹")
    ∷ ("publish_failed", "无法发布")
    ∷ ("publish_p1", "同事将看到情景 {s} 第 {v} 版作为当前排程。")
    ∷ ("publish_p2", "发布会记录此处显示的确切方案与校验结果。若其中任一后续发生变化，批准不会延续。")
    ∷ ("publish_plan", "方案指纹")
    ∷ ("publish_title", "发布此排程？")
    ∷ ("reload", "重新载入")
    ∷ []
