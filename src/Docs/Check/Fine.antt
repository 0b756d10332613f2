-- ===== src/Docs/Check/Fine.antt =====
-- web/scripts/docs-site.mjs: the check in its own terms.
use mirocraft.Prelude.{
  ◌≡◌, refl, ◌⊎◌, inl, inr, true, false, not, ◌&&◌, List, [], ◌∷◌, ◌++◌, Option, none, some, All,
  Bool-cases, Option-cases, Text, is_empty, arith,
}
use mirocraft.Docs.Links.{DocPage, path_of, hash_of}
use mirocraft.Docs.Check.{
  Problem, no_file, no_heading, leads_away, is_among, links_of, content, exists, target_ids,
  check_link, check_links, check_pages, status_for,
}

append-empty : (xs ys : List Problem) → xs ++ ys ≡ [] → (xs ≡ []) × (ys ≡ [])
append-empty [] ys h = (refl, h)
append-empty (x ∷ xs) ys h = cc

pub no_problem : (xs : List Problem) → status_for xs ≡ 0 → xs ≡ []
no_problem [] h = refl
no_problem (x ∷ xs) h = absurd (ground arith)

module _ (site : Text → Option Text) where
  -- What the check looks for.
  pub data Fine (html raw : Text) : Type 0 where
    away_fine : leads_away raw ≡ true → Fine html raw
    inside :
        (path_of raw ≡ []) ⊎ (exists site (path_of raw) ≡ true)
        → (hash_of raw ≡ []) ⊎ (is_among (hash_of raw) (target_ids site html (path_of raw)) ≡ true)
        → Fine html raw

  pub found : (s : Text) → is_empty s ≡ true → s ≡ []
  found [] h = refl
  found (c ∷ s) h = cc

  check_link_sound : (page html raw : Text) → check_link site page html raw ≡ none → Fine html raw
  unfolding check_link
  check_link_sound page html raw h = elim (Bool-cases (leads_away raw)) [
    | inl gone ↦ away_fine gone
    | inr stays ↦
        elim (Bool-cases (not (is_empty (path_of raw)) && not (exists site (path_of raw)))) [
          | inl missing ↦ let bad : some (no_file page raw) ≡ none = rw (stays, missing) at h in cc
          | inr there ↦ inside (file_there there) (elim (Bool-cases (is_empty (hash_of raw))) [
            | inl bare ↦ inl (found (hash_of raw) bare)
            | inr anchored ↦
                elim (Bool-cases (is_among (hash_of raw) (target_ids site html (path_of raw)))) [
                  | inl known ↦ inr known
                  | inr lost ↦
                      let bad : some (no_heading page raw) ≡ none =
                        rw (stays, there, anchored, lost) at h in
                      cc
                ]
          ])
        ]
  ]
    where
      file_there :
          (not (is_empty (path_of raw)) && not (exists site (path_of raw))) ≡ false
          → (path_of raw ≡ []) ⊎ (exists site (path_of raw) ≡ true)
      file_there there = elim (Bool-cases (is_empty (path_of raw))) [
        | inl bare ↦ inl (found (path_of raw) bare)
        | inr named ↦ inr (ground arith)
      ]

  is_there :
      (raw : Text)
      → (path_of raw ≡ []) ⊎ (exists site (path_of raw) ≡ true)
      → (not (is_empty (path_of raw)) && not (exists site (path_of raw))) ≡ false
  is_there raw (inl bare) = rw bare refl
  is_there raw (inr there) = rw there (ground arith)

  check_link_complete :
      (page html raw : Text) → Fine html raw → check_link site page html raw ≡ none
  unfolding check_link
  check_link_complete page html raw (away_fine gone) = rw gone refl
  check_link_complete page html raw (inside file anchor) = elim (Bool-cases (leads_away raw)) [
    | inl gone ↦ rw gone refl
    | inr stays ↦
        rw (stays, is_there raw file)
          (elim anchor [ inl bare ↦ rw bare refl | inr known ↦ rw known (ground arith) ])
  ]

  check_links_sound :
      (page html : Text) (raws : List Text)
      → check_links site page html raws ≡ []
      → All (Fine html) raws
  unfolding check_links
  check_links_sound page html [] h = tt
  check_links_sound page html (raw ∷ raws) h = elim (Option-cases (check_link site page html raw)) [
    | inl fine ↦
        (check_link_sound page html raw fine, check_links_sound page html raws (rw fine at h))
    | inr (problem, e) ↦ let bad : problem ∷ check_links site page html raws ≡ [] = rw e at h in cc
  ]

  check_links_complete :
      (page html : Text) (raws : List Text)
      → All (Fine html) raws
      → check_links site page html raws ≡ []
  unfolding check_links
  check_links_complete page html [] h = refl
  check_links_complete page html (raw ∷ raws) (h, hs) =
      rw (check_link_complete page html raw h) (check_links_complete page html raws hs)

  -- All links of a page pass.
  abbrev pub PageFine : DocPage → Type 0
  PageFine p = All (Fine (content site p.out)) (links_of (content site p.out))

  pub check_pages_sound : (ps : List DocPage) → check_pages site ps ≡ [] → All PageFine ps
  unfolding check_pages
  check_pages_sound [] h = tt
  check_pages_sound (p ∷ ps) h =
      let (here, rest) = append-empty _ (check_pages site ps) h in
      (
        check_links_sound p.out (content site p.out) (links_of (content site p.out)) here,
        check_pages_sound ps rest,
      )

  pub check_pages_complete : (ps : List DocPage) → All PageFine ps → check_pages site ps ≡ []
  unfolding check_pages
  check_pages_complete [] h = refl
  check_pages_complete (p ∷ ps) (h, hs) =
      rw (check_links_complete p.out (content site p.out) (links_of (content site p.out)) h)
        (check_pages_complete ps hs)
