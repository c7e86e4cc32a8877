-- ===== src/Language/Chinese/First.antt =====
-- web/i18n.js, lines 930 to 1031: the first part of the Chinese table.
use chocobofix.Prelude.{String, List, [], ◌∷◌}

unfoldable pub chinese_first : List (String × String)
chinese_first =
    ("acct_active", "启用中")
    ∷ ("acct_add", "添加账户")
    ∷ ("acct_create", "创建")
    ∷ ("acct_disable", "停用")
    ∷ ("acct_disabled", "已停用")
    ∷ ("acct_enable", "启用")
    ∷ ("acct_note", "管理员管理账户但不能发布排程，审批人也不能创建排程。这两项职责是有意分开的。")
    ∷ ("acct_you", "这是您本人")
    ∷ ("activities_all", "作业")
    ∷ ("activities_lede", "本项目数据中的每一项作业，以及分配给它的夜间。")
    ∷ ("activities_search", "搜索作业、合同或区段")
    ∷ ("adjust", "调整排程")
    ∷ ("adjust_churn", "共有 {n} 个作业周发生变化。")
    ∷ ("adjust_from", "自第几周")
    ∷ ("adjust_impossible", "在减少后的使用权下无法安排这些工程。当前排程未作更改，但在此条件下已不再安全。")
    ∷ ("adjust_left", "仍可用夜数")
    ∷ ("adjust_note", "这是预览。在审批人发布之前，不会发布任何内容。")
    ∷ ("adjust_p", "说明哪个地点减少了夜间以及持续多久。以当前排程为起点，未受影响的工程将保持不变。")
    ∷ ("adjust_preview", "预览修订后的排程")
    ∷ ("adjust_result", "罚分由 {before} 变为 {after}。有 {n} 项作业移动。")
    ∷ ("adjust_title", "因使用权减少而调整排程")
    ∷ ("adjust_to", "至第几周")
    ∷ ("adjust_where", "地点")
    ∷ ("adjust_working", "正在推算后果…")
    ∷ ("audit_auth.login", "登录")
    ∷ ("audit_auth.logout", "退出")
    ∷ ("audit_authz.deny", "被拒（角色）")
    ∷ ("audit_bootstrap", "创建首位管理员")
    ∷ ("audit_instance.upload", "上传数据")
    ∷ ("audit_job.cancel", "停止生成")
    ∷ ("audit_job.create", "开始生成")
    ∷ ("audit_plan.approve", "发布排程")
    ∷ ("audit_plan.create", "生成排程")
    ∷ ("audit_plan.explain", "检查其他周")
    ∷ ("audit_plan.repair", "预览使用权减少")
    ∷ ("audit_plan.revoke", "撤回排程")
    ∷ ("audit_project.create", "创建项目")
    ∷ ("audit_user.create", "创建账户")
    ∷ ("audit_user.disable", "停用账户")
    ∷ ("audit_user.enable", "启用账户")
    ∷ ("audit_user.role", "变更角色")
    ∷ ("back", "返回")
    ∷ ("cancel", "取消")
    ∷ ("check_continue", "继续生成")
    ∷ ("check_contracts_note", "各有其截止日期")
    ∷ ("check_contracts_title", "本数据中的合同")
    ∷ ("check_failed", "有 {n} 处问题，数据暂不可用。")
    ∷ ("check_failed_p", "修正文件后重新选择。没有问题的文件仍然保留。")
    ∷ ("check_firststart", "最早可开工：")
    ∷ ("check_fix", "重新选择文件")
    ∷ ("check_invalidated", "有 {n} 个此前的方案基于不同的数据，现已标记为过期。")
    ∷ ("check_jobs_note", "各自需要若干夜间")
    ∷ ("check_ok", "文件完整且一致。")
    ∷ ("check_problems", "需要修正的内容")
    ∷ ("check_window", "规划窗口")
    ∷ ("checking", "正在服务器上校验文件…")
    ∷ ("close", "关闭")
    ∷ ("col_action", "")
    ∷ ("col_contract", "合同")
    ∷ ("col_created", "创建时间")
    ∷ ("col_detail", "详情")
    ∷ ("col_due", "截止")
    ∷ ("col_expected", "预计完工")
    ∷ ("col_field", "字段")
    ∷ ("col_file", "文件")
    ∷ ("col_given", "已给夜数")
    ∷ ("col_job", "作业")
    ∷ ("col_kind", "工程类型")
    ∷ ("col_late", "延期")
    ∷ ("col_madeby", "生成者")
    ∷ ("col_needs", "所需夜数")
    ∷ ("col_nights", "所需夜数")
    ∷ ("col_owner", "所有者")
    ∷ ("col_penalty", "罚分")
    ∷ ("col_priority", "优先级")
    ∷ ("col_problem", "问题")
    ∷ ("col_project", "项目")
    ∷ ("col_publishedby", "发布者")
    ∷ ("col_result", "结果")
    ∷ ("col_row", "行")
    ∷ ("col_state", "状态")
    ∷ ("col_version", "版本")
    ∷ ("col_weeks", "周次")
    ∷ ("col_what", "操作")
    ∷ ("col_when", "时间")
    ∷ ("col_where", "位置")
    ∷ ("col_who", "操作者")
    ∷ ("create_admin", "创建管理员")
    ∷ ("d_after", "须在此之后")
    ∷ ("d_books", "占用")
    ∷ ("d_buffer", "其安全缓冲另需保持 {n} 处地点净空。")
    ∷ ("d_earliest", "不得早于")
    ∷ ("d_locations", "处地点")
    ∷ ("d_none", "无")
    ∷ ("d_scheduled", "已给夜间")
    ∷ ("d_unscheduled", "未排程")
    ∷ ("d_where", "区段")
    ∷ ("d_workload", "工作量")
    ∷ ("demo_p1", "示例项目使用公开的练习数据，您无需上传任何文件即可体验完整流程。")
    ∷ ("demo_p2", "请先登录，然后创建项目并在上传步骤选择“试用示例项目”。若由您自行部署，请以首位管理员启动服务：")
    ∷ ("demo_p3", "示例数据有明确标识，并与任何真实项目相互隔离。")
    ∷ ("download", "下载")
    ∷ []
