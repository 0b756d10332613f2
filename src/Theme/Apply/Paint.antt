-- ===== src/Theme/Apply/Paint.antt =====
-- web/src/lib/theme.ts: what `apply` leaves on the page.
use mirocraft.Prelude.{
  ◌≡◌, refl, sym, ◌∙◌, inl, inr, Bool, true, false, List, [], ◌∷◌, Option, some, none, ◌===◌, any,
  ===_sound, find-All, All, Text, codes, if◌then◌else◌, Bool-cases, arith, ap,
}
use mirocraft.Prelude.Dict.{lookup, insert, erase, lookup-insert, lookup-erase}
use mirocraft.Api.Types.{CustomTheme}
use mirocraft.Theme.Registry.{system}
use mirocraft.Theme.Apply.{
  Vars, Root, Page, theme_tokens, is_custom, remove_properties, set_properties, clear_overrides,
  find_custom, apply_builtin, apply_custom, apply,
}

-- Two styles set the same properties to the same values.
abbrev pub SameStyle : Vars → Vars → Type 0
SameStyle a b = (name : Text) → lookup name a ≡ lookup name b

abbrev pub PaintsSame : Root → Root → Type 0
PaintsSame a b = (a.data_theme ≡ b.data_theme) × SameStyle a.style b.style

abbrev pub is_token : Text → Bool
is_token name = any (λ token. token === name) theme_tokens

-- A style that sets nothing but the tokens that a custom theme may set.
abbrev pub Whitelisted : Vars → Type 0
Whitelisted style = (name : Text) → is_token name ≡ false → lookup name style ≡ none

lookup-remove_properties :
    (tokens : List Text) (name : Text) (style : Vars)
    → lookup name (remove_properties tokens style)
      ≡ (if any (λ token. token === name) tokens then none else lookup name style)
unfolding remove_properties
lookup-remove_properties [] name style = refl
lookup-remove_properties (token ∷ tokens) name style =
    ground (
      arith,
      lookup-remove_properties tokens name (erase token style),
      lookup-erase token name style,
    )

pub clear_overrides-SameStyle :
    (root : Root) → Whitelisted root.style → SameStyle (clear_overrides root).style []
unfolding clear_overrides lookup
clear_overrides-SameStyle root white name = elim (Bool-cases (is_token name)) [
  | inl known ↦ rw (lookup-remove_properties theme_tokens name root.style, known)
  | inr other ↦ rw (lookup-remove_properties theme_tokens name root.style, other) (white name other)
]

pub set_properties-SameStyle :
    (vars a b : Vars) → SameStyle a b → SameStyle (set_properties vars a) (set_properties vars b)
unfolding set_properties
set_properties-SameStyle [] a b same = same
set_properties-SameStyle ((k, v) ∷ vars) a b same =
    set_properties-SameStyle vars (insert k v a) (insert k v b)
      λ name. rw (lookup-insert k name v a, lookup-insert k name v b, same name)

pub []-Whitelisted : Whitelisted []
unfolding lookup
[]-Whitelisted name h = refl

pub clear_overrides-Whitelisted :
    (root : Root) → Whitelisted root.style → Whitelisted (clear_overrides root).style
clear_overrides-Whitelisted root white name h =
    clear_overrides-SameStyle root white name ∙ []-Whitelisted name h

pub set_properties-Whitelisted :
    (vars style : Vars)
    → All (λ kv. is_token kv.0 ≡ true) vars
    → Whitelisted style
    → Whitelisted (set_properties vars style)
unfolding set_properties
set_properties-Whitelisted [] style known white = white
set_properties-Whitelisted ((k, v) ∷ vars) style (known, more) white =
    set_properties-Whitelisted vars (insert k v style) more λ name h.
      elim (Bool-cases (k === name)) [
        | inl same ↦ absurd (cc (ap is_token (===_sound k name same)))
        | inr other ↦ rw (lookup-insert k name v style, other) (white name h)
      ]

cleared :
    (a b : Root)
    → Whitelisted a.style
    → Whitelisted b.style
    → SameStyle (clear_overrides a).style (clear_overrides b).style
cleared a b white_a white_b name =
    clear_overrides-SameStyle a white_a name ∙ sym (clear_overrides-SameStyle b white_b name)

apply_builtin-PaintsSame :
    (choice : Text) (p q : Page)
    → Whitelisted p.root.style
    → Whitelisted q.root.style
    → PaintsSame (apply_builtin choice p).root (apply_builtin choice q).root
unfolding apply_builtin
apply_builtin-PaintsSame choice p q white_p white_q = (refl, cleared p.root q.root white_p white_q)

apply_custom-PaintsSame :
    (choice : Text) (found : Option CustomTheme) (p q : Page)
    → Whitelisted p.root.style
    → Whitelisted q.root.style
    → PaintsSame (apply_custom choice found p).root (apply_custom choice found q).root
unfolding apply_custom
apply_custom-PaintsSame choice none p q white_p white_q =
    apply_builtin-PaintsSame (codes "dark") (record p { root = clear_overrides p.root })
      (record q { root = clear_overrides q.root }) (clear_overrides-Whitelisted p.root white_p)
      (clear_overrides-Whitelisted q.root white_q)
apply_custom-PaintsSame choice (some theme) p q white_p white_q =
    (refl, set_properties-SameStyle theme.vars _ _ (cleared p.root q.root white_p white_q))

-- What a choice paints depends on the choice, the custom themes and the system alone: two pages
-- whose styles set only tokens look the same after it, whatever they showed before.
pub apply-PaintsSame :
    (prefers_light : Bool) (choice : Text) (themes : List CustomTheme) (p q : Page)
    → Whitelisted p.root.style
    → Whitelisted q.root.style
    → PaintsSame
        (apply prefers_light choice themes p).root
        (apply prefers_light choice themes q).root
unfolding apply
apply-PaintsSame prefers_light choice themes p q white_p white_q =
    elim (Bool-cases (choice === system)) [
      | inl follows ↦ rw follows (refl, cleared p.root q.root white_p white_q)
      | inr chosen ↦ rw chosen (elim (Bool-cases (is_custom choice)) [
        | inl custom ↦
            rw custom
              (apply_custom-PaintsSame choice (find_custom choice themes) p q white_p white_q)
        | inr builtin ↦ rw builtin (apply_builtin-PaintsSame choice p q white_p white_q)
      ])
    ]

abbrev pub SetsTokens : CustomTheme → Type 0
SetsTokens theme = All (λ kv. is_token kv.0 ≡ true) theme.vars

apply_custom-Whitelisted :
    (choice : Text) (found : Option CustomTheme) (p : Page)
    → ((theme : CustomTheme) → found ≡ some theme → SetsTokens theme)
    → Whitelisted p.root.style
    → Whitelisted (apply_custom choice found p).root.style
unfolding apply_custom
apply_custom-Whitelisted choice none p known white =
    clear_overrides-Whitelisted (clear_overrides p.root) (clear_overrides-Whitelisted p.root white)
apply_custom-Whitelisted choice (some theme) p known white =
    set_properties-Whitelisted theme.vars _ (known theme refl)
      (clear_overrides-Whitelisted p.root white)

-- Painting keeps the style within the tokens, if it was within them and the custom themes set
-- nothing else.
pub apply-Whitelisted :
    (prefers_light : Bool) (choice : Text) (themes : List CustomTheme) (p : Page)
    → All SetsTokens themes
    → Whitelisted p.root.style
    → Whitelisted (apply prefers_light choice themes p).root.style
unfolding apply find_custom
apply-Whitelisted prefers_light choice themes p known white =
    elim (Bool-cases (choice === system)) [
      | inl follows ↦ rw follows (clear_overrides-Whitelisted p.root white)
      | inr chosen ↦ rw chosen (elim (Bool-cases (is_custom choice)) [
        | inl custom ↦ rw custom (
            apply_custom-Whitelisted choice (find_custom choice themes) p
              (λ theme e. find-All SetsTokens _ themes known e) white)
        | inr builtin ↦ rw builtin (clear_overrides-Whitelisted p.root white)
      ])
    ]
