-- ===== src/FileManager/Laws/Uploads.antt =====
-- web/src/pages/ServerFiles.tsx: the upload of several files.
use mirocraft.Prelude.{◌≡◌, refl, ap, ℕ, zero, suc, Bool, List, [], ◌∷◌, length, Text}
use mirocraft.Api.Http.{UploadFile}
use mirocraft.FileManager.Paths.{clean}
use mirocraft.FileManager.{FileManager, Job, load, upload, succeed, handle_upload, start_load}

-- The files that are sent, in their order, as long as each upload succeeds; and the jobs that
-- follow.
unfoldable pub follow :
    ℕ → (Text → Text → Bool) → List Job → FileManager → List UploadFile × List Job
follow zero collate jobs s = ([], jobs)
follow (suc fuel) collate (upload dir total file left ∷ []) s =
    let (s', jobs) = succeed collate (upload dir total file left) tt s in
    let (files, rest) = follow fuel collate jobs s' in (file ∷ files, rest)
follow (suc fuel) collate jobs s = ([], jobs)

follow-upload :
    (collate : Text → Text → Bool) (dir : Text) (total : ℕ) (file : UploadFile)
    (left : List UploadFile) (s : FileManager)
    → follow (suc (length left)) collate (upload dir total file left ∷ []) s
      ≡ (file ∷ left, load (clean dir) ∷ [])
unfolding follow succeed start_load
follow-upload collate dir total file [] s = refl
follow-upload collate dir total file (next ∷ left) s =
    ap (λ (r : List UploadFile × List Job). (file ∷ r.0, r.1))
      (follow-upload collate dir total next left s)

-- Where every upload succeeds, all the files that were picked are sent, each once and in their
-- order, and then the directory is listed that was shown when they were picked.
pub follow-handle_upload :
    (collate : Text → Text → Bool) (file : UploadFile) (left : List UploadFile) (s : FileManager)
    → let (s', jobs) = handle_upload (file ∷ left) s in
      follow (length (file ∷ left)) collate jobs s' ≡ (file ∷ left, load (clean s.dir) ∷ [])
unfolding handle_upload
follow-handle_upload collate file left s = follow-upload collate s.dir _ file left _
