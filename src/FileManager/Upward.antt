-- ===== src/FileManager/Upward.antt =====
-- web/src/pages/ServerFiles.tsx: into a directory and up again. The daemon's paths begin with a
-- slash.
use mirocraft.Prelude.{
  ◌≡◌, refl, sym, ap, subst, ◌∙◌, inl, inr, Bool, true, false, List, [], ◌∷◌, none, Text, is_empty,
  Lacks,
}
use mirocraft.Api.Types.{FileEntry}
use mirocraft.Api.Http.{Failure}
use mirocraft.Pages.Ui.{Offers, when}
use mirocraft.FileManager.Paths.{clean, parent_of, is_directory}
use mirocraft.FileManager.{
  FileManager, load, opened, navigated, start_load, open_entry, succeed, step,
}
use mirocraft.FileManager.View.{view, main_view, table_view}
use mirocraft.FileManager.Navigation.{
  IsClean, clean-IsClean, clean_of_IsClean, Lacks-IsClean, parent_of_clean,
}
use mirocraft.FileManager.Touched.{child, join-child}

child-IsClean : (dir name : Text) → IsClean dir → Lacks b'/' name → IsClean (child dir name)
child-IsClean [] name h lacks = Lacks-IsClean name lacks
child-IsClean (c ∷ dir) name h lacks = h

clean-rooted :
    (dir name : Text)
    → IsClean dir
    → Lacks b'/' name
    → clean (b'/' ∷ child dir name) ≡ child dir name
unfolding clean
clean-rooted dir name h lacks = clean_of_IsClean (child dir name) (child-IsClean dir name h lacks)

child-nonempty : (dir name : Text) → is_empty name ≡ false → is_empty (child dir name) ≡ false
child-nonempty [] name h = h
child-nonempty (c ∷ dir) name h = refl

parent_of-child :
    (dir name : Text) → IsClean dir → Lacks b'/' name → parent_of (child dir name) ≡ dir
parent_of-child dir name h lacks =
    ap parent_of (sym (join-child dir name)) ∙ parent_of_clean dir name h lacks

module _ (collate : Text → Text → Bool) (message : Failure → Text) (format_date : Text → Text) where
  -- The page once the listing that an entry asks for has come.
  abbrev pub arrived : FileManager → FileEntry → Text → List FileEntry → FileManager
  arrived s e target items =
      (succeed collate (load target) items (step collate message (opened e) s).0).0

  -- The entry asks for a listing of its directory; once it has come, the page is at the directory
  -- and its button upwards asks for a listing of the one before.
  pub record LeadsBack (s : FileManager) (e : FileEntry) (name : Text) (items : List FileEntry)
      : Type 0 where
    pub asks : (step collate message (opened e) s).1 ≡ load (child s.dir name) ∷ []
    pub at_dir : (arrived s e (child s.dir name) items).dir ≡ child s.dir name
    pub upward :
        Offers
          (navigated (parent_of (child s.dir name)))
          (view format_date (arrived s e (child s.dir name) items))
    pub returns :
        (step collate message
          (navigated (parent_of (child s.dir name)))
          (arrived s e (child s.dir name) items)).1
        ≡ load s.dir ∷ []

  up_offered :
      (s : FileManager)
      → s.editing ≡ none
      → is_empty s.dir ≡ false
      → Offers (navigated (parent_of s.dir)) (view format_date s)
  unfolding view main_view table_view when Offers
  up_offered s closed below =
      rw (closed, below)
        (inr (
          inr (
            inr (
              inr (
                inr (inr (inr (inr (inl (refl, record { typed = none; sure = false }, refl))))))))))

  opening_keeps :
      (e : FileEntry) (s : FileManager)
      → is_directory e ≡ true
      → (open_entry e s).0.editing ≡ s.editing
  unfolding open_entry start_load
  opening_keeps e s dir = rw dir refl

  -- Whatever directory the page is at, while no file is edited: a directory that it lists, whose
  -- name is not empty and holds no slash, and whose path is the rooted one of that name, is opened;
  -- once its listing has come, whatever that holds, the page is at it and offers the way upwards,
  -- which asks for the listing of the directory before.
  pub opened-LeadsBack :
      (s : FileManager) (e : FileEntry) (name : Text) (items : List FileEntry)
      → s.dir ≡ clean s.dir
      → s.editing ≡ none
      → is_directory e ≡ true
      → is_empty name ≡ false
      → Lacks b'/' name
      → e.path ≡ b'/' ∷ child s.dir name
      → LeadsBack s e name items
  unfolding step open_entry start_load succeed
  opened-LeadsBack s e name items at closed dir named lacks path =
      let h : IsClean s.dir = subst IsClean (sym at) (clean-IsClean s.dir) in
      let target : clean e.path ≡ child s.dir name =
        ap clean path ∙ clean-rooted s.dir name h lacks in
      let back : parent_of (child s.dir name) ≡ s.dir = parent_of-child s.dir name h lacks in
      record {
        asks = rw (dir, target) refl;
        at_dir = refl;
        upward =
            up_offered (arrived s e (child s.dir name) items) (opening_keeps e s dir ∙ closed)
              (child-nonempty s.dir name named);
        returns = ap (λ d. load (clean d) ∷ []) back ∙ ap (λ d. load d ∷ []) (sym at);
      }
