-- ===== src/Resource/Latest.antt =====
-- What is shown is the reply of the latest run.
use chocobofix.Prelude.{
  ◌≡◌, refl, sym, ◌∙◌, ap, Bool, true, false, none, some, List, [], ◌∷◌, inl, inr, In, arith,
  eqb_iff, if◌then◌else◌, ◌⊎◌,
}
use chocobofix.Resource.{
  loaded, failed, cancelled, Resource, Event, change, reload, reply, initially, fetch, fetch_if,
  is_current, settle, step, steps,
}

module _ {D E : Type 0} where
  -- The events of a run in the opposite order.
  abbrev reverse_onto : List (Event D E) → List (Event D E) → List (Event D E)
  reverse_onto [] past = past
  reverse_onto (e ∷ es) past = reverse_onto es (e ∷ past)

  In-reverse_onto :
      (a : Event D E) (es past : List (Event D E))
      → In a (reverse_onto es past)
      → In a es ⊎ In a past
  In-reverse_onto a [] past i = inr i
  In-reverse_onto a (e ∷ es) past i = elim (In-reverse_onto a es (e ∷ past) i) [
    | inl j ↦ inl (inr j)
    | inr (inl same) ↦ inl (inl same)
    | inr (inr j) ↦ inr j
  ]

  -- What is shown and is not being replaced was the reply to the latest run.
  abbrev pub IsLatestReply : List (Event D E) → Resource D E → Type 0
  IsLatestReply past s =
      (d : D) → s.content ≡ some d → s.loading ≡ false → In (reply s.seq (loaded d)) past

  step-IsLatestReply :
      (past : List (Event D E)) (s : Resource D E) (e : Event D E)
      → IsLatestReply past s
      → IsLatestReply (e ∷ past) (step s e)
  unfolding step fetch settle
  step-IsLatestReply past s (change true) h = λ d c l. cc
  step-IsLatestReply past s (change false) h = λ d c l. cc
  step-IsLatestReply past s reload h = by_enabled s.enabled
    where
      by_enabled : (b : Bool) → IsLatestReply (reload ∷ past) (fetch_if b s).0
      by_enabled true d c l = cc
      by_enabled false d c l = cc
  step-IsLatestReply past s (reply mine cancelled) h = λ d c l. inr (h d c l)
  step-IsLatestReply past s (reply mine (failed x)) h = by_current (is_current mine s)
    where
      by_current :
          (b : Bool)
          → IsLatestReply
              (reply mine (failed x) ∷ past)
              (if b then record s { content = none; error = some x; loading = false } else s)
      by_current true d c l = cc
      by_current false d c l = inr (h d c l)
  step-IsLatestReply past s (reply mine (loaded x)) h = by_current (is_current mine s) refl
    where
      same_run : is_current mine s ≡ true → mine ≡ s.seq
      same_run k = ground (arith, eqb_iff mine s.seq)

      by_current :
          (b : Bool)
          → is_current mine s ≡ b
          → IsLatestReply
              (reply mine (loaded x) ∷ past)
              (if b then record s { content = some x; error = none; loading = false } else s)
      by_current true k d c l =
          let same : x ≡ d = cc in
          inl (
            ap (λ n. reply n (loaded d)) (sym (same_run k))
            ∙ ap (λ y. reply mine (loaded y)) (sym same))
      by_current false k d c l = inr (h d c l)

  steps-from :
      (past : List (Event D E)) (s : Resource D E) (es : List (Event D E))
      → IsLatestReply past s
      → IsLatestReply (reverse_onto es past) (steps s es)
  unfolding steps
  steps-from past s [] h = h
  steps-from past s (e ∷ es) h = steps-from (e ∷ past) (step s e) es (step-IsLatestReply past s e h)

  -- Whatever changes, reloads and replies arrive in whatever order, the data that is shown once
  -- nothing is loading is what the latest run was answered with: a reply to an earlier run is
  -- never shown.
  pub steps-IsLatestReply :
      (enabled : Bool) (es : List (Event D E)) (d : D)
      → (steps (initially enabled) es).content ≡ some d
      → (steps (initially enabled) es).loading ≡ false
      → In (reply (steps (initially enabled) es).seq (loaded d)) es
  steps-IsLatestReply enabled es d c l =
      elim (In-reverse_onto _ es [] (steps-from [] (initially enabled) es (λ d c l. cc) d c l)) [
        | inl i ↦ i
        | inr i ↦ absurd i
      ]
