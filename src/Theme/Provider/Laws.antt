-- ===== src/Theme/Provider/Laws.antt =====
-- web/src/ThemeProvider.tsx: what the page shows after each event, and the toggle.
use mirocraft.Prelude.{
  ◌≡◌, refl, sym, ap, subst, inl, inr, Bool, true, false, List, [], Option, some, none, ◌===◌,
  ===_sound, All, Text, codes, if◌then◌else◌, Bool-cases, is_empty, ◌||◌,
}
use mirocraft.Api.Types.{ThemeBase, dark, light, CustomTheme}
use mirocraft.Theme.Registry.{system, base_name, find_builtin}
use mirocraft.Theme.Apply.{Page, apply, base_of, is_custom}
use mirocraft.Theme.Apply.Paint.{
  PaintsSame, Whitelisted, SetsTokens, apply-PaintsSame, apply-Whitelisted,
  set_properties-Whitelisted, []-Whitelisted, clear_overrides-Whitelisted,
}
use mirocraft.Theme.Prerender.Laws.{fresh}
use mirocraft.Theme.Provider.{
  Provider, repaint, paint_by, set_choice, toggle_light_dark, preview, reconcile, receive_themes,
  system_changed, other_base, Event, chosen, toggled, profile, themes, preference, previewed,
  preview_ended, step,
}

-- A page on which nothing was painted.
abbrev pub blank : Page
blank = record {
  root = fresh;
  cache = record { available = false; choice = none; base = none; vars = none };
}

-- Only tokens are set, on the page and by the custom themes.
pub record IsTidy (s : Provider) : Type 0 where
  pub white : Whitelisted s.page.root.style
  pub known : All SetsTokens s.custom_themes

-- The page looks as a blank one does after `apply` of the provider's choice.
abbrev pub Shows : Provider → Type 0
Shows s = PaintsSame s.page.root (apply s.prefers_light s.choice s.custom_themes blank).root

repaint-Shows : (s : Provider) → IsTidy s → Shows (repaint s)
unfolding repaint
repaint-Shows s tidy =
    apply-PaintsSame s.prefers_light s.choice s.custom_themes s.page blank tidy.white []-Whitelisted

repaint-IsTidy : (s : Provider) → IsTidy s → IsTidy (repaint s)
unfolding repaint
repaint-IsTidy s tidy = record {
  white = apply-Whitelisted s.prefers_light s.choice s.custom_themes s.page tidy.known tidy.white;
  known = tidy.known;
}

-- What an event brings in sets only tokens.
abbrev pub Brings : Event → Type 0
Brings (themes (some list)) = All SetsTokens list
Brings (previewed vars base) =
    SetsTokens (record { id = []; schema = []; name = []; base = base; vars = vars })
Brings (chosen seen next) = All SetsTokens seen
Brings (toggled seen) = All SetsTokens seen
Brings (preview_ended seen) = All SetsTokens seen
Brings event = Unit

-- The closure that the event runs has seen the current custom themes, where the paint of it stays.
abbrev pub UpToDate : Event → Provider → Type 0
UpToDate (chosen seen next) s = (next === s.choice) ≡ true → seen ≡ s.custom_themes
UpToDate (toggled seen) s = seen ≡ s.custom_themes
UpToDate (preview_ended seen) s = seen ≡ s.custom_themes
UpToDate event s = Unit

abbrev pub Good : Provider → Type 0
Good s = IsTidy s × Shows s

pub repaint-Good : (s : Provider) → IsTidy s → Good (repaint s)
repaint-Good s tidy = (repaint-IsTidy s tidy, repaint-Shows s tidy)

if-Good : (b : Bool) (s t : Provider) → Good s → Good t → Good (if b then s else t)
if-Good true s t h k = h
if-Good false s t h k = k

paint_by-IsTidy :
    (seen : List CustomTheme) (s : Provider)
    → All SetsTokens seen
    → IsTidy s
    → IsTidy (paint_by seen s)
unfolding paint_by
paint_by-IsTidy seen s known tidy = record {
  white = apply-Whitelisted s.prefers_light s.choice seen s.page known tidy.white;
  known = tidy.known;
}

paint_by-current :
    (seen : List CustomTheme) (s : Provider) → seen ≡ s.custom_themes → paint_by seen s ≡ repaint s
unfolding paint_by repaint
paint_by-current seen s same =
    ap (λ list. record s { page = apply s.prefers_light s.choice list s.page }) same

paint_by-Good :
    (seen : List CustomTheme) (s : Provider)
    → seen ≡ s.custom_themes
    → IsTidy s
    → Good (paint_by seen s)
paint_by-Good seen s same tidy =
    subst Good (sym (paint_by-current seen s same)) (repaint-Good s tidy)

-- A choice that is new is painted again.
set_choice-Good :
    (seen : List CustomTheme) (next : Text) (s : Provider)
    → All SetsTokens seen
    → ((next === s.choice) ≡ true → seen ≡ s.custom_themes)
    → IsTidy s
    → Good (set_choice seen next s).0
unfolding set_choice
set_choice-Good seen next s known current tidy =
    let s' = record s { choice = next } in
    let tidy' : IsTidy s' = record { white = tidy.white; known = tidy.known } in
    elim (Bool-cases (next === s.choice)) [
      | inl same ↦ rw same (paint_by-Good seen s' (current same) tidy')
      | inr new ↦ rw new (repaint-Good (paint_by seen s') (paint_by-IsTidy seen s' known tidy'))
    ]

reconcile-Good : (choice : Option Text) (s : Provider) → Good s → Good (reconcile choice s)
unfolding reconcile
reconcile-Good none s good = good
reconcile-Good (some choice) s good =
    let s' = record s { choice = choice } in
    if-Good (is_empty choice || choice === s.choice) s (repaint s') good
      (repaint-Good s' (record { white = good.0.white; known = good.0.known }))

receive_themes-Good :
    (list : Option (List CustomTheme)) (s : Provider)
    → Brings (themes list)
    → Good s
    → Good (receive_themes list s)
unfolding receive_themes
receive_themes-Good none s brings good = good
receive_themes-Good (some list) s brings good =
    let s' = record s { custom_themes = list } in
    if-Good s.authenticated (repaint s') s
      (repaint-Good s' (record { white = good.0.white; known = brings })) good

-- The system's preference is nothing to a choice of the user's own.
apply_of_chosen :
    (a b : Bool) (choice : Text) (list : List CustomTheme) (p : Page)
    → (choice === system) ≡ false
    → apply a choice list p ≡ apply b choice list p
unfolding apply
apply_of_chosen a b choice list p own = rw own

system_changed-Good :
    (prefers_light : Bool) (s : Provider) → Good s → Good (system_changed prefers_light s)
unfolding system_changed
system_changed-Good prefers_light s good = elim (Bool-cases (s.choice === system)) [
  | inl follows ↦ rw follows (
      subst
        (λ (c : Text). Good (record s {
          prefers_light = prefers_light;
          page = apply prefers_light c s.custom_themes s.page;
        }))
        (===_sound s.choice system follows)
        (unfold repaint in (repaint-Good (record s { prefers_light = prefers_light }) tidy')))
  | inr own ↦ rw own (
    tidy',
    subst (λ (pg : Page). PaintsSame s.page.root pg.root)
        (apply_of_chosen s.prefers_light prefers_light s.choice s.custom_themes blank own) good.1,
  )
]
  where
    tidy' : IsTidy (record s { prefers_light = prefers_light })
    tidy' = record { white = good.0.white; known = good.0.known }

-- All that an event leaves: a preview leaves a tidy page, any other event one that shows the choice.
abbrev pub After : Event → Provider → Type 0
After (previewed vars base) s = IsTidy s
After event s = IsTidy s × Shows s

preview-IsTidy :
    (vars : List (Text × Text)) (base : ThemeBase) (s : Provider)
    → Brings (previewed vars base)
    → IsTidy s
    → IsTidy (preview vars base s)
unfolding preview
preview-IsTidy vars base s brings tidy = record {
  white =
      set_properties-Whitelisted vars _ brings (clear_overrides-Whitelisted s.page.root tidy.white);
  known = tidy.known;
}

-- Where the page shows the provider's choice and only tokens are set, by the page, by the custom
-- themes and by what the event brings, the page shows the choice after any event but a preview, and
-- still sets only tokens after every event. The end of a preview, a toggle, and a choice that is the
-- one already made must run with a closure that has seen the current custom themes.
pub step-After :
    (event : Event) (s : Provider)
    → Brings event
    → UpToDate event s
    → IsTidy s
    → Shows s
    → After event (step event s)
unfolding step
step-After (chosen seen next) s brings current tidy shows =
    set_choice-Good seen next s brings current tidy
step-After (toggled seen) s brings current tidy shows =
    set_choice-Good seen _ s brings (λ same. current) tidy
step-After (profile choice) s brings current tidy shows = reconcile-Good choice s (tidy, shows)
step-After (themes list) s brings current tidy shows =
    receive_themes-Good list s brings (tidy, shows)
step-After (preference prefers_light) s brings current tidy shows =
    system_changed-Good prefers_light s (tidy, shows)
step-After (previewed vars base) s brings current tidy shows =
    preview-IsTidy vars base s brings tidy
step-After (preview_ended seen) s brings current tidy shows = paint_by-Good seen s current tidy

-- A base, chosen by its name, is that base.
base_of-base_name :
    (prefers_light : Bool) (base : ThemeBase) (list : List CustomTheme)
    → base_of prefers_light (base_name base) list ≡ base
unfolding base_of find_builtin is_custom codes ◌===◌
base_of-base_name prefers_light dark list = refl
base_of-base_name prefers_light light list = refl

abbrev pub shown_base : Provider → ThemeBase
shown_base s = base_of s.prefers_light s.choice s.custom_themes

if-shown_base :
    (b : Bool) (s t : Provider) {base : ThemeBase}
    → shown_base s ≡ base
    → shown_base t ≡ base
    → shown_base (if b then s else t) ≡ base
if-shown_base true s t h k = h
if-shown_base false s t h k = k

-- The choice that a toggle that has seen the current themes leaves has the other base, whatever was
-- chosen before.
pub toggle-shown_base :
    (s : Provider) → shown_base (toggle_light_dark s.custom_themes s).0 ≡ other_base (shown_base s)
unfolding toggle_light_dark
toggle-shown_base s =
    let base = other_base (shown_base s) in
    let flipped = base_of-base_name s.prefers_light base s.custom_themes in
    if-shown_base (base_name base === s.choice) _ _ flipped flipped
