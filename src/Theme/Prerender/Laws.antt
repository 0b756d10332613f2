-- ===== src/Theme/Prerender/Laws.antt =====
-- The script of web/index.html and `apply` of web/src/lib/theme.ts.
use mirocraft.Prelude.{
  ℕ, ◌≡◌, refl, sym, inl, inr, Bool, true, false, List, [], ◌∷◌, Option, some, none, get_or_else,
  ◌===◌, find-All, All, Text, codes, Bool-cases, is_empty, starts_with,
}
use mirocraft.Api.Types.{ThemeBase, dark, light, CustomTheme}
use mirocraft.Theme.Registry.{
  base_name, BuiltinTheme, system, find_builtin, builtin_themes, first_theme,
}
use mirocraft.Theme.Apply.{
  Root, Page, is_custom, clear_overrides, find_custom, apply_builtin, apply_custom, apply,
}
use mirocraft.Theme.Apply.Paint.{
  PaintsSame, Whitelisted, clear_overrides-SameStyle, set_properties-SameStyle,
  clear_overrides-Whitelisted,
}
use mirocraft.Theme.Prerender.{prerender}

-- The id of a built-in theme is not empty, not the system's choice and not a custom one.
abbrev IsPlain : BuiltinTheme → Type 0
IsPlain theme =
    (is_empty theme.id ≡ false)
    × ((theme.id === system) ≡ false)
    × (starts_with theme.id (codes "custom:") ≡ false)

builtin_themes-IsPlain : All IsPlain builtin_themes
unfolding builtin_themes codes ◌===◌ starts_with
builtin_themes-IsPlain = (
  (refl, refl, refl),
  ((refl, refl, refl), ((refl, refl, refl), ((refl, refl, refl), ((refl, refl, refl), tt)))),
)

found-IsPlain :
    (choice : Text) (found : Option BuiltinTheme)
    → find_builtin choice ≡ found
    → IsPlain (get_or_else found first_theme)
unfolding find_builtin
found-IsPlain choice none e = unfold builtin_themes in builtin_themes-IsPlain.0
found-IsPlain choice (some theme) e =
    find-All IsPlain (λ t. t.id === choice) builtin_themes builtin_themes-IsPlain e

-- The page of the next load: no inline style yet.
abbrev pub fresh : Root
fresh = record { data_theme = codes "dark"; style = [] }

starts_with-nonempty : (s p : Text) (c : ℕ) → starts_with s (c ∷ p) ≡ true → is_empty s ≡ false
unfolding starts_with
starts_with-nonempty [] p c h = cc
starts_with-nonempty (d ∷ s) p c h = refl

custom-nonempty : (choice : Text) → is_custom choice ≡ true → is_empty choice ≡ false
unfolding is_custom codes
custom-nonempty choice h = starts_with-nonempty choice (codes "ustom:") b'c' h

system-nonempty : (choice : Text) → (choice === system) ≡ true → is_empty choice ≡ false
unfolding ◌===◌ codes
system-nonempty [] h = cc
system-nonempty (c ∷ s) h = refl

base_name-nonempty : (base : ThemeBase) → is_empty (base_name base) ≡ false
unfolding codes
base_name-nonempty dark = refl
base_name-nonempty light = refl

module _ (prefers_light : Bool) where
  abbrev pub Agrees : Page → Type 0
  Agrees q = PaintsSame (prerender prefers_light q.cache fresh) q.root

  apply_builtin-Agrees :
      (choice : Text) (p : Page)
      → p.cache.available ≡ true
      → Whitelisted p.root.style
      → Agrees (apply_builtin choice p)
  unfolding prerender apply_builtin
  apply_builtin-Agrees choice p kept white =
      let plain = found-IsPlain choice (find_builtin choice) refl in
      rw (kept, plain.0, plain.1, plain.2)
        (refl, λ name. sym (clear_overrides-SameStyle p.root white name))

  apply_custom-Agrees :
      (choice : Text) (found : Option CustomTheme) (p : Page)
      → p.cache.available ≡ true
      → Whitelisted p.root.style
      → (choice === system) ≡ false
      → is_custom choice ≡ true
      → Agrees (apply_custom choice found p)
  unfolding prerender apply_custom is_custom
  apply_custom-Agrees choice none p kept white chosen custom =
      apply_builtin-Agrees (codes "dark") (record p { root = clear_overrides p.root }) kept
        (clear_overrides-Whitelisted p.root white)
  apply_custom-Agrees choice (some theme) p kept white chosen custom =
      rw (kept, custom-nonempty choice custom, chosen, custom, base_name-nonempty theme.base)
        (
          refl,
          set_properties-SameStyle theme.vars [] _
              (λ name. sym (clear_overrides-SameStyle p.root white name)),
        )

  -- If storage is allowed and the page's style set only tokens, the next page load first paints
  -- what `apply` painted: the same `data-theme` and the same value for each property, for every
  -- kind of choice.
  pub apply-Agrees :
      (choice : Text) (themes : List CustomTheme) (p : Page)
      → p.cache.available ≡ true
      → Whitelisted p.root.style
      → Agrees (apply prefers_light choice themes p)
  unfolding prerender apply
  apply-Agrees choice themes p kept white = elim (Bool-cases (choice === system)) [
    | inl follows ↦
        rw (follows, kept, system-nonempty choice follows, follows)
          (refl, λ name. sym (clear_overrides-SameStyle p.root white name))
    | inr chosen ↦ rw chosen (elim (Bool-cases (is_custom choice)) [
      | inl custom ↦
          rw custom
            (apply_custom-Agrees choice (find_custom choice themes) p kept white chosen custom)
      | inr builtin ↦ rw builtin (apply_builtin-Agrees choice p kept white)
    ])
  ]
