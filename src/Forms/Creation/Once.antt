-- ===== src/Forms/Creation/Once.antt =====
-- A visit makes one project at most.
use chocobofix.Prelude.{
  ℕ, ◌≡◌, ◌≢◌, refl, ap, ◌∙◌, suc, ◌⊎◌, inl, inr, String, Bool, true, false, ◌||◌, none, some, List,
  [], ◌∷◌, All, In, All-of_In,
}
use chocobofix.Prelude.Text.{trim, is_empty}
use chocobofix.Forms.Creation.{
  Form, send_unless, create, made_if, failed_if, Event, typed, submitted, made_as, refused, step,
  steps, blank,
}

-- A name that is sent.
abbrev pub IsName : List ℕ → Type 0
IsName name = (name ≢ []) × ((raw : List ℕ) × (name ≡ trim raw))

-- Before the success: the flag is set while the call is under way.
abbrev pub IsOpen : Form → Type 0
IsOpen s = (s.made ≡ []) × (s.went_to ≡ none) × (s.in_flight ≡ s.waiting) × (s.cleared ≡ 0)

-- `Made id` says that the service made that project.
module _ (Made : ℕ → Type 0) where
  -- After it: the page of the new project, and nothing can be sent.
  abbrev pub IsLeft : Form → Type 0
  IsLeft s =
      ((id : ℕ) × Made id × (s.made ≡ id ∷ []) × (s.went_to ≡ some id))
      × (s.in_flight ≡ true)
      × (s.waiting ≡ false)
      × (s.cleared ≡ 1)

  pub record MakesOnce (s : Form) : Type 0 where
    pub phase : IsOpen s ⊎ IsLeft s
    pub shown : s.creating ≡ s.in_flight
    pub names : All IsName s.sent

  -- A success is one of those.
  abbrev pub IsKnown : Event → Type 0
  IsKnown (made_as id) = Made id
  IsKnown _ = Unit

may_send :
    (flag : Bool) (name : List ℕ) → (flag || is_empty name) ≡ false → (flag ≡ false) × (name ≢ [])
may_send true name h = cc
may_send false [] h = cc
may_send false (c ∷ name) h = (refl, λ e. cc)

module _ (Made : ℕ → Type 0) where
  send_unless-MakesOnce :
      (b : Bool) (s : Form)
      → (b ≡ false → (s.in_flight ≡ false) × (trim s.name ≢ []))
      → MakesOnce Made s
      → MakesOnce Made (send_unless b s)
  send_unless-MakesOnce true s h v = v
  send_unless-MakesOnce false s h v = record {
    phase = opened v.phase;
    shown = refl;
    names = (((h refl).1, (s.name, refl)), v.names);
  }
    where
      opened :
          IsOpen s ⊎ IsLeft Made s
          → IsOpen (send_unless false s) ⊎ IsLeft Made (send_unless false s)
      opened (inl (none_made, nowhere, flag, uncleared)) = inl (none_made, nowhere, refl, uncleared)
      opened (inr (there, set, idle, cleared)) = let free = (h refl).0 in cc

  made_if-MakesOnce :
      (b : Bool) (id : ℕ) (s : Form)
      → s.waiting ≡ b
      → Made id
      → MakesOnce Made s
      → MakesOnce Made (made_if b id s)
  made_if-MakesOnce false id s e k v = v
  made_if-MakesOnce true id s e k v = record {
    phase = left v.phase;
    shown = v.shown;
    names = v.names;
  }
    where
      left : IsOpen s ⊎ IsLeft Made s → IsOpen (made_if true id s) ⊎ IsLeft Made (made_if true id s)
      left (inl (none_made, nowhere, flag, uncleared)) =
          inr ((id, k, ap (λ ids. id ∷ ids) none_made, refl), flag ∙ e, refl, ap suc uncleared)
      left (inr (there, set, idle, cleared)) = cc

  failed_if-MakesOnce :
      (b : Bool) (message : String) (s : Form)
      → s.waiting ≡ b
      → MakesOnce Made s
      → MakesOnce Made (failed_if b message s)
  failed_if-MakesOnce false message s e v = v
  failed_if-MakesOnce true message s e v = record {
    phase = again v.phase;
    shown = refl;
    names = v.names;
  }
    where
      again :
          IsOpen s ⊎ IsLeft Made s
          → IsOpen (failed_if true message s) ⊎ IsLeft Made (failed_if true message s)
      again (inl (none_made, nowhere, flag, uncleared)) = inl (none_made, nowhere, refl, uncleared)
      again (inr (there, set, idle, cleared)) = cc

  step-MakesOnce :
      (s : Form) (e : Event) → IsKnown Made e → MakesOnce Made s → MakesOnce Made (step s e)
  unfolding step create
  step-MakesOnce s (typed text) k v = record { phase = v.phase; shown = v.shown; names = v.names }
  step-MakesOnce s submitted k v =
      send_unless-MakesOnce (s.in_flight || is_empty (trim s.name)) s
        (may_send s.in_flight (trim s.name)) v
  step-MakesOnce s (made_as id) k v = made_if-MakesOnce s.waiting id s refl k v
  step-MakesOnce s (refused message) k v = failed_if-MakesOnce s.waiting message s refl v

  steps_from-MakesOnce :
      (s : Form) (es : List Event)
      → All (IsKnown Made) es
      → MakesOnce Made s
      → MakesOnce Made (steps s es)
  unfolding steps
  steps_from-MakesOnce s [] k v = v
  steps_from-MakesOnce s (e ∷ es) k v =
      steps_from-MakesOnce (step s e) es k.1 (step-MakesOnce s e k.0 v)

IsKnown-In : (es : List Event) (e : Event) → In e es → IsKnown (λ id. In (made_as id) es) e
IsKnown-In es (typed text) i = tt
IsKnown-In es submitted i = tt
IsKnown-In es (made_as id) i = i
IsKnown-In es (refused message) i = tt

-- Whatever is typed, submitted and answered, in whatever order: the form makes one project at most. As
-- long as none was made it is busy exactly while a call is under way, and no page was opened; when
-- one was made, the page that was opened last is that project's, no call is under way, the form stays
-- busy and the cache was cleared once. Each name that was sent is trimmed and not empty.
pub steps-MakesOnce : (es : List Event) → MakesOnce (λ id. In (made_as id) es) (steps blank es)
steps-MakesOnce es =
    steps_from-MakesOnce (λ id. In (made_as id) es) blank es (All-of_In _ es (IsKnown-In es))
      (record { phase = inl (refl, refl, refl, refl); shown = refl; names = tt })
