-- ===== src/Startup/Records.antt =====
-- The records that Seed creates (backend/internal/database/database.go). A float64 is its bit pattern,
-- and a point in time its nanoseconds; `now` is later than 02:00 on the first of January 1970.
use gb_516_hydropower_gate_d.Prelude.{ℕ, ◌+◌, ◌-◌, String, none, some, List, [], ◌∷◌, if◌then◌else◌}
use gb_516_hydropower_gate_d.Model.{
  BaseModel, Reservoir, GateUnit, OperationDirective, DirectiveApproval, ExecutionConfirmation,
  role_admin, role_operator, role_reviewer, role_viewer,
}
use gb_516_hydropower_gate_d.Config.{Config, is_production}

-- The composite literal of a BaseModel with version 1.
abbrev first_version : String → String → String → String → BaseModel
first_version code name status description = record {
  id = 0;
  code = code;
  name = name;
  status = status;
  version = 1;
  description = description;
  created_at = 0;
  updated_at = 0;
  deleted_at = none;
}

abbrev hour : ℕ
hour = 3600000000000

abbrev pub seed_reservoirs : ℕ → List Reservoir
seed_reservoirs now =
    record {
      base = first_version "R-001" "库区示例一" "normal" "用于启动验证和主要流程演示的库区记录";
      facility = "水电站闸门调度许可区域1";
      owner = "运行一组";
      category = "常规";
      risk_level = "low";
      metric_value = 0x4029000000000000;
      metric_unit = "unit";
      effective_at = now;
      evidence = "已完成基础证据核对";
      related_code = "R-001";
    }
    ∷ record {
      base = first_version "R-002" "库区示例二" "warning" "用于启动验证和主要流程演示的库区记录";
      facility = "水电站闸门调度许可区域2";
      owner = "质量复核组";
      category = "重点";
      risk_level = "medium";
      metric_value = 0x4039000000000000;
      metric_unit = "%";
      effective_at = now + 10800000000000;
      evidence = "已完成基础证据核对";
      related_code = "R-002";
    }
    ∷ record {
      base = first_version "R-003" "库区示例三" "critical" "用于启动验证和主要流程演示的库区记录";
      facility = "水电站闸门调度许可区域3";
      owner = "安全主管组";
      category = "复核";
      risk_level = "high";
      metric_value = 0x4042c00000000000;
      metric_unit = "score";
      effective_at = now + 21600000000000;
      evidence = "已完成基础证据核对";
      related_code = "R-003";
    }
    ∷ []

abbrev pub seed_gates : ℕ → List GateUnit
seed_gates now =
    record {
      base = first_version "GU-001" "闸门示例一" "open" "用于启动验证和主要流程演示的闸门记录";
      facility = "水电站闸门调度许可区域1";
      owner = "运行一组";
      category = "常规";
      risk_level = "low";
      metric_value = 0x4029000000000000;
      metric_unit = "unit";
      effective_at = now;
      evidence = "已完成基础证据核对";
      related_code = "R-001";
    }
    ∷ record {
      base = first_version "GU-002" "闸门示例二" "closed" "用于启动验证和主要流程演示的闸门记录";
      facility = "水电站闸门调度许可区域2";
      owner = "质量复核组";
      category = "重点";
      risk_level = "medium";
      metric_value = 0x4039000000000000;
      metric_unit = "%";
      effective_at = now + 10800000000000;
      evidence = "已完成基础证据核对";
      related_code = "R-002";
    }
    ∷ record {
      base = first_version "GU-003" "闸门示例三" "moving" "用于启动验证和主要流程演示的闸门记录";
      facility = "水电站闸门调度许可区域3";
      owner = "安全主管组";
      category = "复核";
      risk_level = "high";
      metric_value = 0x4042c00000000000;
      metric_unit = "score";
      effective_at = now + 21600000000000;
      evidence = "已完成基础证据核对";
      related_code = "R-003";
    }
    ∷ []

abbrev pub seed_directives : ℕ → List OperationDirective
seed_directives now =
    record {
      base = first_version "OD-001" "操作指令示例一" "draft" "用于启动验证和主要流程演示的操作指令记录";
      facility = "水电站闸门调度许可区域1";
      owner = "运行一组";
      category = "常规";
      risk_level = "low";
      metric_value = 0x4029000000000000;
      metric_unit = "unit";
      effective_at = now;
      evidence = "已核对库水位与机组工况";
      related_code = "GU-001";
      gate_state = "open";
      submitted_by = "";
      submitted_at = none;
      approved_by = "";
      approved_at = none;
      approvals = [];
    }
    ∷ record {
      base = first_version "OD-002" "操作指令示例二" "pending" "用于启动验证和主要流程演示的操作指令记录";
      facility = "水电站闸门调度许可区域2";
      owner = "质量复核组";
      category = "重点";
      risk_level = "medium";
      metric_value = 0x4039000000000000;
      metric_unit = "%";
      effective_at = now + 10800000000000;
      evidence = "待安全复核员完成第二人确认";
      related_code = "GU-002";
      gate_state = "closed";
      submitted_by = "operator";
      submitted_at = some (now - 7200000000000);
      approved_by = "";
      approved_at = none;
      approvals = [];
    }
    ∷ record {
      base = first_version "OD-003" "右岸泄洪闸开启指令" "executing" "用于启动验证和主要流程演示的操作指令记录";
      facility = "水电站闸门调度许可区域3";
      owner = "安全主管组";
      category = "复核";
      risk_level = "high";
      metric_value = 0x4042c00000000000;
      metric_unit = "score";
      effective_at = now + 21600000000000;
      evidence = "双人确认已完成，现场正在执行";
      related_code = "GU-003";
      gate_state = "open";
      submitted_by = "operator";
      submitted_at = some (now - 7200000000000);
      approved_by = "reviewer";
      approved_at = some (now - hour);
      approvals = [];
    }
    ∷ []

-- The approvals, for the second and the third directive.
abbrev pub seed_approvals : ℕ → ℕ → ℕ → List DirectiveApproval
seed_approvals now second third =
    record {
      id = 0;
      directive_id = second;
      stage = "submitted";
      actor = "operator";
      role = role_operator;
      request_id = "seed-od-002-submit";
      reason = "值班员提交调度许可";
      from_state = "draft";
      to_state = "pending";
      created_at = now - 7200000000000;
    }
    ∷ record {
      id = 0;
      directive_id = third;
      stage = "submitted";
      actor = "operator";
      role = role_operator;
      request_id = "seed-od-003-submit";
      reason = "值班员提交调度许可";
      from_state = "draft";
      to_state = "pending";
      created_at = now - 7200000000000;
    }
    ∷ record {
      id = 0;
      directive_id = third;
      stage = "approved";
      actor = "reviewer";
      role = role_reviewer;
      request_id = "seed-od-003-approve";
      reason = "复核水位窗口和闸门目标无冲突";
      from_state = "pending";
      to_state = "approved";
      created_at = now - hour;
    }
    ∷ []

abbrev pub seed_confirmations : ℕ → List ExecutionConfirmation
seed_confirmations now =
    record {
      base = first_version "EC-001" "右岸泄洪闸现场执行回执" "pending" "关联已批准且正在执行的操作指令，记录现场反馈与证据";
      facility = "水电站闸门调度许可区域3";
      owner = "运行一组";
      category = "泄洪调度";
      risk_level = "high";
      metric_value = 0x4042c00000000000;
      metric_unit = "%";
      effective_at = now;
      evidence = "待现场核对开度反馈、视频与水位变化";
      related_code = "OD-003";
      confirmed_by = "";
      confirmed_at = none;
    }
    ∷ []

-- An entry of `accounts`.
pub record Account : Type 0 where
  pub username : String
  pub display_name : String
  pub role : String
  pub password : String

abbrev account : String → String → String → String → Account
account username display_name role password = record {
  username = username;
  display_name = display_name;
  role = role;
  password = password;
}

abbrev pub admin_account : Config → Account
admin_account c = account "admin" "系统管理员" role_admin c.bootstrap_admin_password

-- A viewer is added outside production only.
abbrev pub other_accounts : Config → List Account
other_accounts c =
    account "operator" "现场操作员" role_operator c.bootstrap_operator_password
    ∷ account "reviewer" "安全复核员" role_reviewer c.bootstrap_reviewer_password
    ∷ (if is_production c
        then []
        else account "viewer" "值班观察员" role_viewer c.bootstrap_admin_password ∷ [])

abbrev pub accounts : Config → List Account
accounts c = admin_account c ∷ other_accounts c
