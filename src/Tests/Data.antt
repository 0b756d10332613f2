-- ===== src/Tests/Data.antt =====
-- A server that the tests share.
use mirocraft.Prelude.{[], true, false, some, none, codes}
use mirocraft.Api.Types.{Server, running}

abbrev pub lobby : Server
lobby = record {
  id = codes "s1";
  name = codes "Lobby";
  core = codes "paper";
  version = codes "1.21";
  kind = codes "java";
  status = running;
  ram_mb = 2048;
  port = 25565;
  java_args = [];
  owner_id = codes "u1";
  auto_start = false;
  auto_restart = true;
  eula_accepted = true;
  proxy_id = none;
  crossplay = none;
  bedrock_port = none;
  created_at = codes "2025-01-01";
  metrics = some (record {
    ram_used_mb = 900;
    ram_limit_mb = none;
    cpu_percent = 1250;
    uptime_seconds = 60;
    players_online = some 2;
    players_max = some 20;
  });
}
