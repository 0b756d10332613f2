-- ===== src/Pages/Properties/Rows.antt =====
-- web/src/pages/ServerSettings.tsx: the keys that have a row.
use mirocraft.Prelude.{
  ◌≡◌, refl, ap, ap₂, ◌∙◌, inl, inr, Bool, true, not, ◌&&◌, ◌||◌, List, [], ◌∷◌, ◌++◌, map, any,
  any-append, filter, ◌===◌, ===_sound, Bool-cases, Text, arith,
}
use mirocraft.Prelude.Dict.{lookup, insert, lookup-insert}
use mirocraft.Api.Servers.{Setting, Settings}
use mirocraft.Pages.Properties.{
  Values, Row, rows_of, row_of, put_key, sort_keys, known_keys, rest_keys, matches, contains,
  schema_into, schema_by_key,
}

-- The key is one of a list.
abbrev listed : Text → List Text → Bool
listed key = any (λ k. k === key)

-- A test that only depends on which key it is given.
listed-filter :
    (key : Text) (p : Text → Bool) (keys : List Text)
    → listed key (filter p keys) ≡ listed key keys && p key
listed-filter key p [] = refl
listed-filter key p (k ∷ keys) =
    let agree : (k === key) ≡ true → p k ≡ p key = λ same. ap p (===_sound k key same) in
    ground (arith, listed-filter key p keys, agree)

abbrev schema_keys : List Setting → List Text
schema_keys = map (λ (s : Setting). s.key)

contains-values :
    (key : Text) (values : Values) → listed key (map (λ kv. kv.0) values) ≡ contains key values
unfolding lookup
contains-values key [] = refl
contains-values key ((k, v) ∷ values) = elim (Bool-cases (k === key)) [
  | inl same ↦ rw same refl
  | inr other ↦ rw other (contains-values key values)
]

contains-insert {ℓ} :
    {V : Type ℓ} (key k : Text) (v : V) (dict : List (Text × V))
    → contains key (insert k v dict) ≡ (k === key) || contains key dict
contains-insert key k v dict = elim (Bool-cases (k === key)) [
  | inl same ↦ rw (lookup-insert k key v dict, same) refl
  | inr other ↦ rw (lookup-insert k key v dict, other) refl
]

contains-schema_into :
    (key : Text) (items : List Setting) (dict : List (Text × Setting))
    → contains key (schema_into items dict) ≡ listed key (schema_keys items) || contains key dict
unfolding schema_into
contains-schema_into key [] dict = refl
contains-schema_into key (item ∷ items) dict =
    contains-schema_into key items (insert item.key item dict)
    ∙ ground (arith, contains-insert key item.key item dict)

abbrev pub keyed : Text → List Row → Bool
keyed key = any (λ (r : Row). r.key === key)

keyed-map :
    (settings : Settings) (draft : Values) (key : Text) (keys : List Text)
    → keyed key (map (row_of settings draft) keys) ≡ listed key keys
unfolding row_of
keyed-map settings draft key [] = refl
keyed-map settings draft key (k ∷ keys) =
    ap (λ b. (k === key) || b) (keyed-map settings draft key keys)

listed-known_keys :
    (settings : Settings) (key : Text)
    → listed key (known_keys settings)
      ≡ listed key (schema_keys settings.schema) && contains key settings.values
unfolding known_keys
listed-known_keys settings key =
    listed-filter key (λ k. contains k settings.values) (schema_keys settings.schema)

module _ (before : Text → Text → Bool) where
  listed-put_key :
      (key x : Text) (keys : List Text)
      → listed key (put_key before x keys) ≡ (x === key) || listed key keys
  unfolding put_key
  listed-put_key key x [] = refl
  listed-put_key key x (y ∷ ys) = elim (Bool-cases (before x y)) [
    | inl first ↦ rw first refl
    | inr later ↦ rw (later, listed-put_key key x ys) (ground arith)
  ]

  listed-sort_keys :
      (key : Text) (keys : List Text) → listed key (sort_keys before keys) ≡ listed key keys
  unfolding sort_keys
  listed-sort_keys key [] = refl
  listed-sort_keys key (x ∷ xs) =
      listed-put_key key x (sort_keys before xs)
      ∙ ap (λ b. (x === key) || b) (listed-sort_keys key xs)

  listed-rest_keys :
      (settings : Settings) (key : Text)
      → listed key (rest_keys before settings)
        ≡ contains key settings.values && not (listed key (schema_keys settings.schema))
  unfolding rest_keys schema_by_key
  listed-rest_keys settings key =
      listed-sort_keys key _
      ∙ listed-filter key (λ k. not (contains k (schema_by_key settings.schema)))
          (map (λ kv. kv.0) settings.values)
      ∙ ap₂ (λ a b. a && not b) (contains-values key settings.values)
          (ground (arith, contains-schema_into key settings.schema []))

  -- Once the file was read, a key has a row exactly if the file holds it and it passes the filter,
  -- whether or not the schema knows it.
  pub rows_of-keyed :
      (lower : Text → Text) (settings : Settings) (draft : Values) (text key : Text)
      → keyed key (rows_of before lower settings draft text)
        ≡ contains key settings.values && matches lower text key
  unfolding rows_of
  rows_of-keyed lower settings draft text key =
      keyed-map settings draft key _
      ∙ listed-filter key (matches lower text) (known_keys settings ++ rest_keys before settings)
      ∙ ap (λ b. b && matches lower text key)
          (any-append (λ k. k === key) (known_keys settings) (rest_keys before settings)
            ∙ rw (listed-known_keys settings key, listed-rest_keys settings key) (ground arith))
