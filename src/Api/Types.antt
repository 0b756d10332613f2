-- ===== src/Api/Types.antt =====
-- web/src/lib/api.ts: the interfaces that mirror docs/API.md. A numeric field is a natural number,
-- and a load in percent is a number of hundredths; an optional or nullable field is an `Option`.
use mirocraft.Prelude.{ℕ, Bool, List, Option, Text}

pub data Role : Type 0 where
  admin user : Role

pub record User : Type 0 where
  pub id : Text
  pub email : Text
  pub role : Role
  pub theme : Text
  pub blocked : Bool
  pub max_servers : ℕ
  pub max_ram_mb : ℕ
  pub max_disk_mb : ℕ
  pub created_at : Text

pub record Me : Type 0 where
  pub user : User
  pub open user use *
  pub scopes : List Text

pub record ServerMetrics : Type 0 where
  pub ram_used_mb : ℕ
  pub ram_limit_mb : Option ℕ
  pub cpu_percent : ℕ
  pub uptime_seconds : ℕ
  pub players_online : Option ℕ
  pub players_max : Option ℕ

pub data ServerStatus : Type 0 where
  creating stopped starting running stopping crashed : ServerStatus

pub record Server : Type 0 where
  pub id : Text
  pub name : Text
  pub core : Text
  pub version : Text
  pub kind : Text
  pub status : ServerStatus
  pub ram_mb : ℕ
  pub port : ℕ
  pub java_args : Text
  pub owner_id : Text
  pub auto_start : Bool
  pub auto_restart : Bool
  pub eula_accepted : Bool
  pub proxy_id : Option Text
  pub crossplay : Option Bool
  pub bedrock_port : Option ℕ
  pub created_at : Text
  pub metrics : Option ServerMetrics

pub data Stream : Type 0 where
  stdout stderr : Stream

pub record ConsoleLine : Type 0 where
  pub ts : Text
  pub stream : Stream
  pub text : Text

pub data ThemeBase : Type 0 where
  dark light : ThemeBase

pub record CustomTheme : Type 0 where
  pub id : Text
  pub schema : Text
  pub name : Text
  pub base : ThemeBase
  pub vars : List (Text × Text)

pub data TaskStatus : Type 0 where
  queued running done failed : TaskStatus

pub record Task : Type 0 where
  pub id : Text
  pub kind : Text
  pub server_id : Option Text
  pub status : TaskStatus
  pub progress : ℕ
  pub error : Option Text

pub record ApiToken : Type 0 where
  pub id : Text
  pub name : Text
  pub scopes : List Text
  pub kind : Text
  pub expires_at : Option Text
  pub last_used_at : Option Text
  pub created_at : Text

pub data FileType : Type 0 where
  file directory symlink : FileType

pub record FileEntry : Type 0 where
  pub name : Text
  pub path : Text
  pub type : FileType
  pub size : ℕ
  pub mode : Text
  pub modified_at : Text
