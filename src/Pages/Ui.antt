-- ===== src/Pages/Ui.antt =====
-- What a page of the panel shows, in web/src/pages and web/src/components: what its markup renders,
-- in the order of the document. Of an element the text, the state and the handler are kept; its
-- name, its classes, its hints and the layout are not, and pictures are left out.
use mirocraft.Api.Json.{Json, truthy}
use mirocraft.Api.Http.{UploadFile}
use mirocraft.Prelude.{
  ◌≡◌, refl, subst, All, ◌⊎◌, inl, inr, Bool, true, false, not, List, [], ◌∷◌, Option, none, some,
  if◌then◌else◌, Text, is_empty,
}

-- What `window.prompt` and `window.confirm` give, if a handler asks.
pub record Dialogs : Type 0 where
  pub typed : Option Text
  pub sure : Bool

infixr 60 ◌⊕◌
pub data View (E : Type 0) : Type 0 where
  blank : View E
  ◌⊕◌ : View E → View E → View E
  text : Text → View E
  raw : Json → View E
  link : (target label : Text) → View E
  button : (label : Text) → (disabled : Bool) → (press : Dialogs → E) → View E
  -- The button of a form: the browser keeps the form back while a required field is empty.
  submit : (label : Text) → (disabled : Bool) → (required : List Text) → (press : E) → View E
  checkbox : (checked disabled : Bool) → (change : Bool → E) → View E
  input : (shown : Text) → (disabled : Bool) → (change : Text → E) → View E
  select :
      (shown : Text)
      → (options : List (Text × Text)) → (disabled : Bool) → (change : Text → E) → View E
  -- A button that lets files be picked.
  files : (label : Text) → (pick : List UploadFile → E) → View E

-- `condition && …`
unfoldable pub when : {E : Type 0} → Bool → View E → View E
when shown view = if shown then view else blank

-- `condition ? … : …`
unfoldable pub either : {E : Type 0} → Bool → View E → View E → View E
either test view other = if test then view else other

-- `value && …` for a value that may be missing.
unfoldable pub when_some : {A E : Type 0} → Option A → (A → View E) → View E
when_some none view = blank
when_some (some a) view = view a

-- `error && …`: a message that counts as false is rendered itself.
unfoldable pub when_error : {E : Type 0} → Option Json → (Json → View E) → View E
when_error none view = blank
when_error (some message) view = if truthy message then view message else raw message

-- `list.map(…)`
unfoldable pub each : {A E : Type 0} → (A → View E) → List A → View E
each view [] = blank
each view (a ∷ rest) = view a ⊕ each view rest

-- A text that is there and not empty.
abbrev pub given : Option Text → Option Text
given none = none
given (some t) = if is_empty t then none else some t

abbrev is_shown : Option Json → Bool
is_shown none = false
is_shown (some message) = truthy message

-- `notice && !error && …`, on every page that has both.
unfoldable pub notice_view : {E : Type 0} → Option Json → Option Text → View E
unfolding when when_some
notice_view error notice = when_some (given notice) (λ t. when (not (is_shown error)) (text t))

module _ {E : Type 0} where
  -- A control that is not disabled offers its events.
  unfoldable pub Offers : E → View E → Type 0
  Offers e (a ⊕ b) = Offers e a ⊎ Offers e b
  Offers e (button label disabled press) = (disabled ≡ false) × (x : Dialogs) × (press x ≡ e)
  Offers e (submit label disabled required press) =
      (disabled ≡ false) × All (λ t. is_empty t ≡ false) required × (press ≡ e)
  Offers e (checkbox checked disabled change) = (disabled ≡ false) × (b : Bool) × (change b ≡ e)
  Offers e (input shown disabled change) = (disabled ≡ false) × (t : Text) × (change t ≡ e)
  Offers e (select shown options disabled change) = (disabled ≡ false) × (t : Text) × (change t ≡ e)
  Offers e (files label pick) = (picked : List UploadFile) × (pick picked ≡ e)
  Offers e other = ⊥

  -- Every event that a view offers satisfies `P`.
  pub data Only (P : E → Type 0) : View E → Type 0 where
    no_more : Only P blank
    both : {a b : View E} → Only P a → Only P b → Only P (a ⊕ b)
    a_text : {t : Text} → Only P (text t)
    a_raw : {j : Json} → Only P (raw j)
    a_link : {target label : Text} → Only P (link target label)
    a_button :
        {label : Text} {disabled : Bool} {press : Dialogs → E}
        → (disabled ≡ false → (x : Dialogs) → P (press x))
        → Only P (button label disabled press)
    a_submit :
        {label : Text} {disabled : Bool} {required : List Text} {press : E}
        → (disabled ≡ false → P press)
        → Only P (submit label disabled required press)
    a_checkbox :
        {checked disabled : Bool} {change : Bool → E}
        → (disabled ≡ false → (b : Bool) → P (change b))
        → Only P (checkbox checked disabled change)
    an_input :
        {shown : Text} {disabled : Bool} {change : Text → E}
        → (disabled ≡ false → (t : Text) → P (change t))
        → Only P (input shown disabled change)
    a_select :
        {shown : Text} {options : List (Text × Text)} {disabled : Bool} {change : Text → E}
        → (disabled ≡ false → (t : Text) → P (change t))
        → Only P (select shown options disabled change)
    a_picker :
        {label : Text} {pick : List UploadFile → E}
        → ((picked : List UploadFile) → P (pick picked))
        → Only P (files label pick)

  pub Only-Offers : (P : E → Type 0) {e : E} {view : View E} → Only P view → Offers e view → P e
  unfolding Offers
  Only-Offers P no_more o = absurd o
  Only-Offers P (both h k) (inl o) = Only-Offers P h o
  Only-Offers P (both h k) (inr o) = Only-Offers P k o
  Only-Offers P a_text o = absurd o
  Only-Offers P a_raw o = absurd o
  Only-Offers P a_link o = absurd o
  Only-Offers P (a_button press) (free, x, e) = subst P e (press free x)
  Only-Offers P (a_submit press) (free, filled, e) = subst P e (press free)
  Only-Offers P (a_checkbox change) (free, b, e) = subst P e (change free b)
  Only-Offers P (an_input change) (free, t, e) = subst P e (change free t)
  Only-Offers P (a_select change) (free, t, e) = subst P e (change free t)
  Only-Offers P (a_picker pick) (picked, e) = subst P e (pick picked)

  module _ {P : E → Type 0} where
    pub Only-when : (shown : Bool) {view : View E} → Only P view → Only P (when shown view)
    unfolding when
    Only-when true h = h
    Only-when false h = no_more

    -- Where the view rests on what it is shown for.
    pub Only-when_true :
        (shown : Bool) (view : View E) → (shown ≡ true → Only P view) → Only P (when shown view)
    unfolding when
    Only-when_true true view h = h refl
    Only-when_true false view h = no_more

    pub Only-either :
        (test : Bool) {view other : View E}
        → Only P view
        → Only P other
        → Only P (either test view other)
    unfolding either
    Only-either true h k = h
    Only-either false h k = k

    pub Only-when_some :
        {A : Type 0} (o : Option A) (view : A → View E)
        → ((a : A) → Only P (view a))
        → Only P (when_some o view)
    unfolding when_some
    Only-when_some none view h = no_more
    Only-when_some (some a) view h = h a

    Only-message :
        (j : Json) (shown : Bool) {view : View E}
        → Only P view
        → Only P (if shown then view else raw j)
    Only-message j true h = h
    Only-message j false h = a_raw

    pub Only-when_error :
        (o : Option Json) (view : Json → View E)
        → ((j : Json) → Only P (view j))
        → Only P (when_error o view)
    unfolding when_error
    Only-when_error none view h = no_more
    Only-when_error (some j) view h = Only-message j (truthy j) (h j)

    pub Only-each :
        {A : Type 0} (view : A → View E) (list : List A)
        → ((a : A) → Only P (view a))
        → Only P (each view list)
    unfolding each
    Only-each view [] h = no_more
    Only-each view (a ∷ rest) h = both (h a) (Only-each view rest h)

    pub Only-notice :
        (error : Option Json) (notice : Option Text) → Only P (notice_view error notice)
    unfolding notice_view
    Only-notice error notice =
        Only-when_some (given notice) _ (λ t. Only-when (not (is_shown error)) a_text)

    -- Where the list holds only what satisfies `Q`.
    pub Only-each_All :
        {A : Type 0} {Q : A → Type 0} (view : A → View E) (list : List A)
        → All Q list
        → ((a : A) → Q a → Only P (view a))
        → Only P (each view list)
    unfolding each
    Only-each_All view [] hs h = no_more
    Only-each_All view (a ∷ rest) (q, hs) h = both (h a q) (Only-each_All view rest hs h)
