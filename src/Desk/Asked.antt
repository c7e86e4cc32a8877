-- ===== src/Desk/Asked.antt =====
-- Which flows ask for something of the opened project, and whose values are shown.
use chocobofix.Prelude.{
  ℕ, ◌≡◌, sym, subst, Option, none, some, List, [], ◌∷◌, ◌⊎◌, inr, arith, All, number_eq,
}
use chocobofix.Plan.{Version}
use chocobofix.Desk.{
  Project, Waits, open_versions, open_instances, open_detail, refresh, load_result, Flow, take_flow,
  drop_flow, note_revision,
}

module _ (Q : Flow → Type 0) where
  pub All-drop_flow : (p : ℕ) (fs : List Flow) → All Q fs → All Q (drop_flow p fs)
  unfolding drop_flow
  All-drop_flow p [] h = tt
  All-drop_flow p (f ∷ fs) h = ground (arith, All-drop_flow p fs h.1)

  pub take_flow-All : (p : ℕ) (fs : List Flow) {f : Flow} → All Q fs → take_flow p fs ≡ some f → Q f
  unfolding take_flow
  take_flow-All p [] {f} h e = cc
  take_flow-All p (g ∷ fs) {f} h e = ground (arith, take_flow-All p fs {f = f} h.1)

-- The opened project is that one, if one is opened.
abbrev pub IsOpen : Option Project → ℕ → Type 0
IsOpen none pid = Unit
IsOpen (some p) pid = p.id ≡ pid

-- A flow that asks for something of a project asks for the opened one.
abbrev pub AsksOpen : Option Project → Waits → Type 0
AsksOpen project (open_versions pid) = IsOpen project pid
AsksOpen project (open_instances pid) = IsOpen project pid
AsksOpen project (refresh pid) = IsOpen project pid
AsksOpen project _ = Unit

-- A flow that asks for nothing of a project.
abbrev pub IsOther : Waits → Type 0
IsOther (open_versions pid) = ⊥
IsOther (open_instances pid) = ⊥
IsOther (refresh pid) = ⊥
IsOther _ = Unit

-- `VersionsOf pid vs` says that `vs` are a project's versions, `InstanceOf pid iid` that `iid` is one
-- of its instances, `FilesOf vid f` that `f` are a version's files.
module _ (VersionsOf : ℕ → List Version → Type 0) where
  abbrev pub Versions : Option Project → List Version → Type 0
  Versions none vs = Unit
  Versions (some p) vs = (vs ≡ []) ⊎ VersionsOf p.id vs

  pub Versions-note_revision :
      (o : Option Project) (pid r : ℕ) (vs : List Version)
      → IsOpen o pid
      → VersionsOf pid vs
      → Versions (note_revision r o) vs
  Versions-note_revision none pid r vs here h = tt
  Versions-note_revision (some p) pid r vs here h = inr (subst (λ q. VersionsOf q vs) (sym here) h)

module _ (InstanceOf : ℕ → ℕ → Type 0) where
  abbrev pub Instance : Option Project → Option ℕ → Type 0
  Instance none i = Unit
  Instance (some p) none = Unit
  Instance (some p) (some iid) = InstanceOf p.id iid

  pub Instance-note_revision :
      (o : Option Project) (r : ℕ) (i : Option ℕ) → Instance o i → Instance (note_revision r o) i
  Instance-note_revision none r i h = tt
  Instance-note_revision (some p) r none h = tt
  Instance-note_revision (some p) r (some iid) h = h

  pub Instance-first :
      (o : Option Project) (pid iid : ℕ) → IsOpen o pid → InstanceOf pid iid → Instance o (some iid)
  Instance-first none pid iid here h = tt
  Instance-first (some p) pid iid here h = subst (λ q. InstanceOf q iid) (sym here) h

pub IsOpen-note_revision :
    (o : Option Project) (r pid : ℕ) → IsOpen o pid → IsOpen (note_revision r o) pid
IsOpen-note_revision none r pid h = tt
IsOpen-note_revision (some p) r pid h = h

pub AsksOpen-note_revision :
    (o : Option Project) (r : ℕ) (w : Waits) → AsksOpen o w → AsksOpen (note_revision r o) w
AsksOpen-note_revision o r (open_versions pid) h = IsOpen-note_revision o r pid h
AsksOpen-note_revision o r (open_instances pid) h = IsOpen-note_revision o r pid h
AsksOpen-note_revision o r (refresh pid) h = IsOpen-note_revision o r pid h
AsksOpen-note_revision o r (open_detail iid) h = tt
AsksOpen-note_revision o r (load_result vid) h = tt

-- Without a project, or for a flow that asks nothing of one, there is nothing to keep.
pub AsksOpen-none : (w : Waits) → AsksOpen none w
AsksOpen-none (open_versions pid) = tt
AsksOpen-none (open_instances pid) = tt
AsksOpen-none (refresh pid) = tt
AsksOpen-none (open_detail iid) = tt
AsksOpen-none (load_result vid) = tt

pub AsksOpen-other : (o : Option Project) (w : Waits) → IsOther w → AsksOpen o w
AsksOpen-other o (open_versions pid) h = absurd h
AsksOpen-other o (open_instances pid) h = absurd h
AsksOpen-other o (refresh pid) h = absurd h
AsksOpen-other o (open_detail iid) h = tt
AsksOpen-other o (load_result vid) h = tt
