-- ===== src/Theme/Prerender.antt =====
-- The script of web/index.html, which paints the cached theme before the first frame.
pub mod Laws
use mirocraft.Prelude.{
  Bool, Option, none, some, is_empty, ◌===◌, Text, codes, if◌then◌else◌, starts_with,
}
use mirocraft.Theme.Apply.{Root, Cache, set_properties, system_base}
use mirocraft.Theme.Registry.{system, base_name}

-- `value || fallback`
abbrev or_else : Option Text → Text → Text
or_else none d = d
or_else (some t) d = if is_empty t then d else t

-- The overrides are those of the cached object, if there is one.
abbrev paint_custom : Cache → Root → Root
paint_custom c root = record {
  data_theme = or_else c.base (codes "dark");
  style = elim c.vars [ none ↦ root.style | some vars ↦ set_properties vars root.style ];
}

abbrev paint_stored : Bool → Text → Cache → Root → Root
paint_stored prefers_light stored c root =
    if stored === system
    then record root { data_theme = base_name (system_base prefers_light) }
    else if starts_with stored (codes "custom:")
    then paint_custom c root
    else record root { data_theme = stored }

-- Where storage is denied the first read throws, and the page is painted dark.
unfoldable pub prerender : Bool → Cache → Root → Root
unfolding set_properties system_base starts_with
prerender prefers_light c root =
    if c.available
    then paint_stored prefers_light (or_else c.choice system) c root
    else record root { data_theme = codes "dark" }
