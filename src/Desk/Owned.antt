-- ===== src/Desk/Owned.antt =====
-- What is shown belongs to the opened project, while one project is opened at a time.
use chocobofix.Prelude.{
  ℕ, ◌≡◌, refl, sym, subst, Option, none, some, List, [], ◌∷◌, ◌⊎◌, inl, inr, All, All-map,
  All-append, Option-cases, number_eq,
}
use chocobofix.Prelude.JsMap.{get, All-set_entry}
use chocobofix.Plan.{Version}
use chocobofix.Desk.{
  Project, Result, Files, Waits, open_versions, open_instances, open_detail, refresh, load_result,
  Flow, Desk, Reply, versions_are, instances_are, detail_is, files_are, failed, take_flow, parsed,
  wait, open_project, refresh_versions, refresh_of, use_instance, has_result, load_result_of,
  note_versions, next_instances, first_instance, resume, sign_out_local, after_wait, Event, opened,
  refreshed, shown, signed_out, replied, step, steps, at_start,
}
use chocobofix.Desk.Asked.{
  All-drop_flow, take_flow-All, IsOpen, AsksOpen, IsOther, Versions, Versions-note_revision,
  Instance, Instance-note_revision, Instance-first, IsOpen-note_revision, AsksOpen-note_revision,
  AsksOpen-none, AsksOpen-other,
}

module _ {D : Type 0} (VersionsOf : ℕ → List Version → Type 0) (InstanceOf : ℕ → ℕ → Type 0)
    (FilesOf : ℕ → Files → Type 0) where
  -- The versions and the chosen instance are the opened project's, and what is kept for a version
  -- is read from its files.
  pub record IsOwned (s : Desk D) : Type 0 where
    pub versions : Versions VersionsOf s.project s.versions
    pub instance : Instance InstanceOf s.project s.instance_id
    pub results : All (λ b. (f : Files) × FilesOf b.0 f × (b.1 ≡ parsed f)) s.results
    pub flows : All (λ f. AsksOpen s.project f.waits) s.flows

  abbrev Answers : Waits → Reply D → Type 0
  Answers (open_versions pid) (versions_are vs r) = VersionsOf pid vs
  Answers (refresh pid) (versions_are vs r) = VersionsOf pid vs
  Answers (open_instances pid) (instances_are ids) = All (InstanceOf pid) ids
  Answers (load_result vid) (files_are f) = FilesOf vid f
  Answers _ _ = Unit

  abbrev AnswersTo : Option Flow → Reply D → Type 0
  AnswersTo none reply = Unit
  AnswersTo (some f) reply = Answers f.waits reply

  abbrev IsAllowed : Desk D → Event D → Type 0
  IsAllowed s (opened p) = All (λ f. IsOther f.waits) s.flows
  IsAllowed s (replied p reply) = AnswersTo (take_flow p s.flows) reply
  IsAllowed s _ = Unit

  -- The service answers for what it was asked, and no project is opened while an opening or a
  -- refresh is under way.
  abbrev pub AreAllowed : Desk D → List (Event D) → Type 0
  AreAllowed s [] = Unit
  AreAllowed s (e ∷ es) = IsAllowed s e × AreAllowed (step s e) es

  wait-IsOwned : (w : Waits) (s : Desk D) → IsOwned s → AsksOpen s.project w → IsOwned (wait w s)
  wait-IsOwned w s v h = record {
    versions = v.versions;
    instance = v.instance;
    results = v.results;
    flows = All-append _ s.flows _ v.flows (h, tt);
  }

  note_versions-IsOwned :
      (pid : ℕ) (vs : List Version) (r : ℕ) (s : Desk D)
      → IsOwned s
      → IsOpen s.project pid
      → VersionsOf pid vs
      → IsOwned (note_versions vs r s)
  unfolding note_versions
  note_versions-IsOwned pid vs r s v here h = record {
    versions = Versions-note_revision VersionsOf s.project pid r vs here h;
    instance = Instance-note_revision InstanceOf s.project r s.instance_id v.instance;
    results = v.results;
    flows = All-map _ _ (λ f. AsksOpen-note_revision s.project r f.waits) s.flows v.flows;
  }

  next_instances-IsOwned :
      (o : Option Project) (pid : ℕ) (s : Desk D)
      → IsOwned s
      → IsOpen s.project pid
      → IsOwned (next_instances o pid s)
  next_instances-IsOwned none pid s v here = v
  next_instances-IsOwned (some p) pid s v here = wait-IsOwned (open_instances pid) s v here

  first_instance-IsOwned :
      (pid : ℕ) (ids : List ℕ) (s : Desk D)
      → IsOwned s
      → IsOpen s.project pid
      → All (InstanceOf pid) ids
      → IsOwned (first_instance ids (record s { instances = ids }))
  unfolding use_instance
  first_instance-IsOwned pid [] s v here h = record {
    versions = v.versions;
    instance = v.instance;
    results = v.results;
    flows = v.flows;
  }
  first_instance-IsOwned pid (iid ∷ ids) s v here h =
      wait-IsOwned (open_detail iid) (record s { instances = iid ∷ ids; instance_id = some iid })
        (record {
          versions = v.versions;
          instance = Instance-first InstanceOf s.project pid iid here h.0;
          results = v.results;
          flows = v.flows;
        })
        tt

  resume-IsOwned :
      (w : Waits) (reply : Reply D) (s : Desk D)
      → IsOwned s
      → AsksOpen s.project w
      → Answers w reply
      → IsOwned (resume w reply s)
  unfolding resume note_versions
  resume-IsOwned (open_versions pid) (versions_are vs r) s v here h =
      next_instances-IsOwned s.project pid (note_versions vs r s)
        (note_versions-IsOwned pid vs r s v here h) (IsOpen-note_revision s.project r pid here)
  resume-IsOwned (open_versions pid) (instances_are ids) s v here h = v
  resume-IsOwned (open_versions pid) (detail_is d) s v here h = v
  resume-IsOwned (open_versions pid) (files_are f) s v here h = v
  resume-IsOwned (open_versions pid) failed s v here h = v
  resume-IsOwned (open_instances pid) (versions_are vs r) s v here h = v
  resume-IsOwned (open_instances pid) (instances_are ids) s v here h =
      first_instance-IsOwned pid ids s v here h
  resume-IsOwned (open_instances pid) (detail_is d) s v here h = v
  resume-IsOwned (open_instances pid) (files_are f) s v here h = v
  resume-IsOwned (open_instances pid) failed s v here h = v
  resume-IsOwned (open_detail iid) (versions_are vs r) s v here h = v
  resume-IsOwned (open_detail iid) (instances_are ids) s v here h = v
  resume-IsOwned (open_detail iid) (detail_is d) s v here h = record {
    versions = v.versions;
    instance = v.instance;
    results = v.results;
    flows = v.flows;
  }
  resume-IsOwned (open_detail iid) (files_are f) s v here h = v
  resume-IsOwned (open_detail iid) failed s v here h = v
  resume-IsOwned (refresh pid) (versions_are vs r) s v here h =
      note_versions-IsOwned pid vs r s v here h
  resume-IsOwned (refresh pid) (instances_are ids) s v here h = v
  resume-IsOwned (refresh pid) (detail_is d) s v here h = v
  resume-IsOwned (refresh pid) (files_are f) s v here h = v
  resume-IsOwned (refresh pid) failed s v here h = v
  resume-IsOwned (load_result vid) (versions_are vs r) s v here h = v
  resume-IsOwned (load_result vid) (instances_are ids) s v here h = v
  resume-IsOwned (load_result vid) (detail_is d) s v here h = v
  resume-IsOwned (load_result vid) (files_are f) s v here h = record {
    versions = v.versions;
    instance = v.instance;
    results = All-set_entry _ vid (parsed f) s.results (f, h, refl) v.results;
    flows = v.flows;
  }
  resume-IsOwned (load_result vid) failed s v here h = v

  after_wait-IsOwned :
      (f : Flow) (reply : Reply D) (s : Desk D)
      → IsOwned s
      → AsksOpen s.project f.waits
      → Answers f.waits reply
      → IsOwned (after_wait (some f) reply s)
  after_wait-IsOwned f reply s v here h =
      resume-IsOwned f.waits reply _
        (record {
          versions = v.versions;
          instance = v.instance;
          results = v.results;
          flows = All-drop_flow _ f.promise s.flows v.flows;
        })
        here h

  refresh_of-IsOwned :
      (o : Option Project) (s : Desk D) → s.project ≡ o → IsOwned s → IsOwned (refresh_of o s)
  refresh_of-IsOwned none s e v = v
  refresh_of-IsOwned (some p) s e v =
      wait-IsOwned (refresh p.id) s v (subst (λ o. IsOpen o p.id) (sym e) refl)

  has_result-IsOwned :
      (o : Option Result) (vid : ℕ) (s : Desk D) → IsOwned s → IsOwned (has_result o vid s)
  has_result-IsOwned none vid s v = wait-IsOwned (load_result vid) s v tt
  has_result-IsOwned (some r) vid s v = v

  step-IsOwned : (s : Desk D) (e : Event D) → IsOwned s → IsAllowed s e → IsOwned (step s e)
  unfolding step open_project refresh_versions load_result_of sign_out_local
  step-IsOwned s (opened p) v h =
      wait-IsOwned (open_versions p.id) _
        (record {
          versions = inl refl;
          instance = tt;
          results = tt;
          flows = All-map _ _ (λ f. AsksOpen-other (some p) f.waits) s.flows h;
        })
        refl
  step-IsOwned s refreshed v h = refresh_of-IsOwned s.project s refl v
  step-IsOwned s (shown vid) v h = has_result-IsOwned (get vid s.results) vid s v
  step-IsOwned s signed_out v h = record {
    versions = tt;
    instance = tt;
    results = v.results;
    flows = All-map _ _ (λ f k. AsksOpen-none f.waits) s.flows v.flows;
  }
  step-IsOwned s (replied p reply) v h = found (Option-cases (take_flow p s.flows))
    where
      found :
          (take_flow p s.flows ≡ none) ⊎ ((f : Flow) × (take_flow p s.flows ≡ some f))
          → IsOwned (after_wait (take_flow p s.flows) reply s)
      found (inl e) = rw e v
      found (inr (f, e)) = rw e (
          after_wait-IsOwned f reply s v (take_flow-All _ p s.flows v.flows e)
            (subst (λ o. AnswersTo o reply) e h))

  steps-from :
      (s : Desk D) (es : List (Event D)) → IsOwned s → AreAllowed s es → IsOwned (steps s es)
  unfolding steps
  steps-from s [] v h = v
  steps-from s (e ∷ es) v h = steps-from (step s e) es (step-IsOwned s e v h.0) h.1

  -- From the start on, with openings, refreshes, loads, sign-outs and replies in any order: as long
  -- as the service answers with what was asked for and no project is opened while an earlier opening
  -- or a refresh is under way, the versions that are shown and the chosen instance are those of the
  -- opened project, and what is kept for a version is read from that version's files.
  pub steps-IsOwned : (es : List (Event D)) → AreAllowed at_start es → IsOwned (steps at_start es)
  steps-IsOwned es h =
      steps-from at_start es (record { versions = tt; instance = tt; results = tt; flows = tt }) h
