-- ===== src/Pages/Admin/Laws.antt =====
-- web/src/pages/Admin.tsx: what the administrator may do to the own account, and the notice of a new
-- password.
use mirocraft.Prelude.{
  ◌≡◌, ◌≢◌, refl, inl, inr, Bool, true, false, not, List, [], ◌∷◌, ◌++◌, Option, none, some, All,
  ◌===◌, ===_refl, Bool-cases, Text, codes, is_empty,
}
use mirocraft.Api.Types.{User}
use mirocraft.Api.Accounts.{UserPatch}
use mirocraft.Api.Http.{Failure, Outcome, returned, threw}
use mirocraft.Pages.Report.{report}
use mirocraft.Pages.Ui.{
  Only, Offers, Only-Offers, both, a_text, a_raw, a_button, a_submit, an_input, a_select, Only-when,
  Only-when_true, Only-when_error, Only-each, Only-notice,
}
use mirocraft.Pages.Admin.{
  Admin, UserForm, Field, Action, reset_password, change_role, change_blocked, remove, Job, Reply,
  list, create, change, delete, After, no_patch, press, settle, succeed, fail, finish, Event,
  filled, create_submitted, pressed, handle, handle_create,
}
use mirocraft.Pages.Admin.View.{is_busy, is_creating, view, row_view, form_view}
use mirocraft.Pages.Admin.Running.{Setting}

-- A call that leaves the role, the blocking, the limits and the existence of the account alone: it
-- is for no account or another one, or it sets the password.
pub data Spares (me : Text) : Job → Type 0 where
  lists : {after : After} → Spares me (list after)
  creates : {form : UserForm} → Spares me (create form)
  changes_other :
      {id : Text} {body : UserPatch} {after : After} → id ≢ me → Spares me (change id body after)
  deletes_other : {id : Text} → id ≢ me → Spares me (delete id)
  sets_password :
      {id password : Text} {after : After}
      → Spares me (change id (record no_patch { password = some password }) after)

-- When the page offers what.
pub data Open (me : Text) (s : Admin) : Event → Type 0 where
  filling : (field : Field) → Open me s (filled field)
  submitting : is_creating s.busy ≡ false → Open me s create_submitted
  resetting :
      (u : User) (typed : Option Text) (sure : Bool)
      → is_busy s.busy ≡ false
      → Open me s (pressed reset_password u typed sure)
  acting :
      (action : Action) (u : User) (typed : Option Text) (sure : Bool)
      → is_busy s.busy ≡ false
      → u.id ≢ me
      → Open me s (pressed action u typed sure)

module _ (e : Setting) (s : Admin) where
  other : (id : Text) → not (id === e.me) ≡ true → id ≢ e.me
  other id h same =
      let own : (id === e.me) ≡ true = rw same (===_refl e.me) in
      let bad : false ≡ true = rw own at h in cc

  row-Open : (u : User) → Only (Open e.me s) (row_view e.format_date e.number e.me s.busy u)
  unfolding row_view
  row-Open u = both a_text (
      both (Only-when _ a_text) (
        both (Only-when _ a_text) (
          both a_text (
            both a_text (
              both a_text (
                both (a_button (λ free x. resetting u x.typed x.sure free)) (
                  Only-when_true (not (u.id === e.me)) _ (λ differs.
                    both (a_button (λ free x. acting _ u x.typed x.sure free (other u.id differs)))
                      (both
                        (a_button (λ free x. acting _ u x.typed x.sure free (other u.id differs)))
                        (a_button
                          (λ free x. acting _ u x.typed x.sure free (other u.id differs))))))))))))

  form-Open : Only (Open e.me s) (form_view e.format_date e.number s.busy s.form)
  unfolding form_view
  form-Open = both a_text (
      both a_text (
        both (an_input (λ free t. filling _)) (
          both a_text (
            both (an_input (λ free t. filling _)) (
              both a_text (
                both (a_select (λ free t. filling _)) (
                  both a_text (
                    both (an_input (λ free t. filling _)) (
                      both a_text (
                        both (an_input (λ free t. filling _))
                          (a_submit (λ free. submitting free))))))))))))

  pub view-Open : Only (Open e.me s) (view e.format_date e.number e.me s)
  unfolding view
  view-Open = both a_text (
      both (Only-when_error s.error _ (λ j. a_raw)) (
        both (Only-notice s.error s.notice) (
          both a_text (
            both a_text (
              both a_text (
                both a_text (
                  both (Only-when _ a_text) (
                    both
                      (Only-when _
                        (Only-each (row_view e.format_date e.number e.me s.busy) s.users row-Open))
                      form-Open))))))))

press-Spares :
    (me : Text) (action : Action) (u : User) (typed : Option Text) (sure : Bool) (s : Admin)
    → u.id ≢ me
    → All (Spares me) (press action u typed sure s).1
unfolding press
press-Spares me reset_password u none sure s h = tt
press-Spares me reset_password u (some password) sure s h = elim (Bool-cases (is_empty password)) [
  | inl nothing ↦ rw nothing tt
  | inr given ↦ rw given (sets_password, tt)
]
press-Spares me change_role u typed sure s h = (changes_other h, tt)
press-Spares me change_blocked u typed sure s h = (changes_other h, tt)
press-Spares me remove u typed true s h = (deletes_other h, tt)
press-Spares me remove u typed false s h = tt

reset-Spares :
    (me : Text) (u : User) (typed : Option Text) (sure : Bool) (s : Admin)
    → All (Spares me) (press reset_password u typed sure s).1
unfolding press
reset-Spares me u none sure s = tt
reset-Spares me u (some password) sure s = elim (Bool-cases (is_empty password)) [
  | inl nothing ↦ rw nothing tt
  | inr given ↦ rw given (sets_password, tt)
]

handle-Spares :
    (me : Text) (s : Admin) {event : Event} → Open me s event → All (Spares me) (handle event s).1
unfolding handle handle_create
handle-Spares me s (filling field) = tt
handle-Spares me s (submitting free) = (creates, tt)
handle-Spares me s (resetting u typed sure free) = reset-Spares me u typed sure s
handle-Spares me s (acting action u typed sure free differs) =
    press-Spares me action u typed sure s differs

settle-Spares :
    (me : Text) (job : Job) (outcome : Outcome (Reply job)) (s : Admin)
    → All (Spares me) (settle job outcome s).1
unfolding settle succeed
settle-Spares me (list after) (returned users) s = tt
settle-Spares me (create form) (returned reply) s = (lists, tt)
settle-Spares me (change id body after) (returned reply) s = (lists, tt)
settle-Spares me (delete id) (returned reply) s = (lists, tt)
settle-Spares me job (threw failure) s = tt

-- Whatever is typed and confirmed, what the page offers and what follows a call start no call that
-- deletes the administrator's own account or changes anything of it but its password.
pub offered-Spares :
    (e : Setting) (s : Admin)
    → ((event : Event)
        → Offers event (view e.format_date e.number e.me s)
        → All (Spares e.me) (handle event s).1)
      × ((job : Job) (outcome : Outcome (Reply job)) → All (Spares e.me) (settle job outcome s).1)
offered-Spares e s = (
  λ event o. handle-Spares e.me s (Only-Offers (Open e.me s) (view-Open e s) o),
  λ job outcome. settle-Spares e.me job outcome s,
)

-- The page when all that a press started has failed.
abbrev pub refused : Failure → Admin × List Job → Admin
refused e (s, []) = s
refused e (s, job ∷ jobs) = (settle job (threw e) s).0

-- What the page then says of a password: that it could not be changed, and that it was.
pub record Contradicts (u : User) (e : Failure) (s : Admin) : Type 0 where
  pub error : s.error ≡ some (report e (codes "Не удалось изменить учётную запись"))
  pub notice : s.notice ≡ some (codes "Пароль для " ++ u.email ++ codes " изменён")
  pub busy : s.busy ≡ none

-- Where the call that sets a password fails, the page notes the error and frees its buttons, and it
-- also notes that the password was changed.
pub press-Contradicts :
    (u : User) (password : Text) (sure : Bool) (s : Admin) (e : Failure)
    → is_empty password ≡ false
    → Contradicts u e (refused e (press reset_password u (some password) sure s))
unfolding press settle fail finish
press-Contradicts u password sure s e given =
    rw given (record { error = refl; notice = refl; busy = refl })
