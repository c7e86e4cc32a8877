-- ===== src/Plan/Comparison.antt =====
-- The comparison of the scenarios in client/src/routes/Project.jsx.
use mathlib.Core.List.{append_assoc, append-nil}
use chocobofix.Prelude.{
  ◌≤◌, ◌≡◌, refl, String, string_eq, true, false, Option, none, some, List, [], ◌∷◌, ◌++◌, inl, inr,
  arith, All, All-map, All-append, In, In-append_left, In-append_right, Bool-cases, ltb, ◌===◌,
  eq_iff, if◌then◌else◌, subst,
}
use chocobofix.Prelude.JsMap
use chocobofix.Prelude.JsMap.{get, get-set}
use chocobofix.Plan.{Version, is_later, latest_from, latest}

-- What the table shows for a scenario: nothing where it has no version, else one of its versions
-- that has the highest number.
abbrev pub IsLatest : String → List Version → Option Version → Type 0
IsLatest s seen none = All (λ w. ¬ (w.scenario ≡ s)) seen
IsLatest s seen (some v) =
    In v seen × (v.scenario ≡ s) × All (λ w. w.scenario ≡ s → w.version_no ≤ v.version_no) seen

abbrev note : List (String × Version) → Version → List (String × Version)
note m v = if is_later v (get v.scenario m) then JsMap.set v.scenario v m else m

module _ (s : String) (seen : List Version) (v : Version) where
  stays :
      (o : Option Version) → ¬ (v.scenario ≡ s) → IsLatest s seen o → IsLatest s (seen ++ v ∷ []) o
  stays none other h = All-append (λ w. ¬ (w.scenario ≡ s)) seen (v ∷ []) h (other, tt)
  stays (some w) other (i, e, h) = (
    In-append_left w seen (v ∷ []) i,
    e,
    All-append _ seen (v ∷ []) h ((λ k. absurd (other k)), tt),
  )

  changes :
      (o : Option Version)
      → v.scenario ≡ s
      → IsLatest s seen o
      → IsLatest s (seen ++ v ∷ []) (if is_later v o then some v else o)
  changes none same h = (
    In-append_right v seen (v ∷ []) (inl refl),
    same,
    All-append _ seen (v ∷ []) (All-map _ _ (λ w n k. absurd (n k)) seen h)
        ((λ k. omega arith), tt),
  )
  changes (some w) same (i, e, h) = elim (Bool-cases (ltb w.version_no v.version_no)) [
    | inl later ↦ rw later (
      In-append_right v seen (v ∷ []) (inl refl),
      same,
      All-append _ seen (v ∷ []) (All-map _ _ (λ x n k. at_most x later (n k)) seen h)
          ((λ k. omega arith), tt),
    )
    | inr kept ↦ rw kept (
      In-append_left w seen (v ∷ []) i,
      e,
      All-append _ seen (v ∷ []) h ((λ k. at_least kept), tt),
    )
  ]
    where
      at_most :
          (x : Version)
          → ltb w.version_no v.version_no ≡ true
          → x.version_no ≤ w.version_no
          → x.version_no ≤ v.version_no
      at_most x later h = ground arith

      at_least : ltb w.version_no v.version_no ≡ false → v.version_no ≤ w.version_no
      at_least kept = ground arith

get-note_same :
    (s : String) (m : List (String × Version)) (v : Version)
    → v.scenario ≡ s
    → get s (note m v) ≡ (if is_later v (get s m) then some v else get s m)
get-note_same s m v e =
    subst (λ t. get t (note m v) ≡ (if is_later v (get t m) then some v else get t m)) e own
  where
    own :
        get v.scenario (note m v)
        ≡ (if is_later v (get v.scenario m) then some v else get v.scenario m)
    own = elim (Bool-cases (is_later v (get v.scenario m))) [
      | inl later ↦ simp (later, get-set, (eq_iff v.scenario v.scenario).1 refl)
      | inr kept ↦ simp kept
    ]

get-note_other :
    (s : String) (m : List (String × Version)) (v : Version)
    → ¬ (v.scenario ≡ s)
    → get s (note m v) ≡ get s m
get-note_other s m v n = ground (arith, get-set v.scenario s v m, eq_iff v.scenario s)

note-IsLatest :
    (s : String) (seen : List Version) (m : List (String × Version)) (v : Version)
    → IsLatest s seen (get s m)
    → IsLatest s (seen ++ v ∷ []) (get s (note m v))
note-IsLatest s seen m v h = elim (Bool-cases (v.scenario === s)) [
  | inl same ↦
      let e = (eq_iff v.scenario s).0 same in
      rw (get-note_same s m v e) (changes s seen v (get s m) e h)
  | inr other ↦ let n = not_same other in rw (get-note_other s m v n) (stays s seen v (get s m) n h)
]
  where
    not_same : (v.scenario === s) ≡ false → ¬ (v.scenario ≡ s)
    not_same other e = ground (arith, eq_iff v.scenario s)

latest_from-IsLatest :
    (s : String) (seen : List Version) (m : List (String × Version)) (vs : List Version)
    → IsLatest s seen (get s m)
    → IsLatest s (seen ++ vs) (get s (latest_from m vs))
unfolding latest_from
latest_from-IsLatest s seen m [] h = rw append-nil h
latest_from-IsLatest s seen m (v ∷ vs) h =
    rw (append_assoc seen (v ∷ []) vs) at
      (latest_from-IsLatest s (seen ++ v ∷ []) (note m v) vs (note-IsLatest s seen m v h))

-- For every scenario the comparison shows a version of that scenario with the highest number, and
-- shows none only where the project has no version of the scenario.
pub latest-IsLatest : (s : String) (vs : List Version) → IsLatest s vs (get s (latest vs))
unfolding latest get
latest-IsLatest s vs = latest_from-IsLatest s [] [] vs tt
