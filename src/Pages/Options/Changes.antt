-- ===== src/Pages/Options/Changes.antt =====
-- web/src/pages/ServerOptions.tsx: when the form counts as changed.
use mirocraft.Prelude.{◌≡◌, refl, sym, Bool, true, false, ===_sound, arith}
use mirocraft.Api.Types.{Server}
use mirocraft.Pages.Options.{Draft, draft_of, is_changed, same_flag}

same_flag_sound : (a b : Bool) → same_flag a b ≡ true → a ≡ b
same_flag_sound true b h = sym h
same_flag_sound false true h = cc
same_flag_sound false false h = refl

-- The parts of two forms are the same.
pub record SameDraft (d e : Draft) : Type 0 where
  pub name : d.name ≡ e.name
  pub ram_mb : d.ram_mb ≡ e.ram_mb
  pub port : d.port ≡ e.port
  pub java_args : d.java_args ≡ e.java_args
  pub auto_start : d.auto_start ≡ e.auto_start
  pub auto_restart : d.auto_restart ≡ e.auto_restart
  pub proxy_id : d.proxy_id ≡ e.proxy_id
  pub crossplay : d.crossplay ≡ e.crossplay

pub is_changed-SameDraft :
    (d : Draft) (s : Server) → is_changed d s ≡ false → SameDraft d (draft_of s)
unfolding is_changed draft_of
is_changed-SameDraft d s h = record {
  name = ===_sound d.name s.name (ground arith);
  ram_mb = ground arith;
  port = ground arith;
  java_args = ===_sound d.java_args s.java_args (ground arith);
  auto_start = same_flag_sound d.auto_start s.auto_start (ground arith);
  auto_restart = same_flag_sound d.auto_restart s.auto_restart (ground arith);
  proxy_id = ===_sound d.proxy_id _ (ground arith);
  crossplay = same_flag_sound d.crossplay _ (ground arith);
}
