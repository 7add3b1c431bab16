-- ===== src/Syncer/Manager.antt =====
-- What `GetGroupSyncMgr`, `SetDefaults` and `Validate` promise.
use group_sync_operator.Prelude.{
  String, ◌≡◌, refl, ap, ◌↔◌, continue, lift, new_aggregate, Bool, true, false, Option, some, List,
  [], ◌∷◌, ◌++◌, Result, ok, err, panic, arith, ◌==◌, Bool-cases, inl, inr, Error, Occurs, ◌⊎◌,
  member_iff, new_aggregate-eq_ok,
}
use group_sync_operator.Api.{Provider, GroupSync}
use group_sync_operator.Syncer.{
  Syncer, GroupSyncer, get_group_syncer_for_provider, Found, note, collect_syncers, present,
  managed, and_then, get_group_sync_mgr, set_defaults, write_all, with_defaults, validate_all,
  validate, is_group_allowed, schedule_errors, after_validation,
}
use group_sync_operator.Syncer.Defaults.{init-init, write_back_lem}

-- Each provider has its syncer, in order.
abbrev pub Chosen : List Provider → List Syncer → Type 0
Chosen [] [] = Unit
Chosen [] (s ∷ ss) = ⊥
Chosen (p ∷ ps) [] = ⊥
Chosen (p ∷ ps) (s ∷ ss) = (get_group_syncer_for_provider p ≡ ok s) × Chosen ps ss

note-managed :
    (r : Result Syncer) (rest : Result Found) (s : Syncer) (ss : List Syncer)
    → r ≡ ok s
    → and_then rest ≡ ok ss
    → and_then (note r rest) ≡ ok (s ∷ ss)
note-managed r rest s ss e h = ground arith

collect_syncers-Chosen :
    (ps : List Provider) (ss : List Syncer) → Chosen ps ss → and_then (collect_syncers ps) ≡ ok ss
unfolding collect_syncers
collect_syncers-Chosen [] [] h = refl
collect_syncers-Chosen [] (s ∷ ss) h = absurd h
collect_syncers-Chosen (p ∷ ps) [] h = absurd h
collect_syncers-Chosen (p ∷ ps) (s ∷ ss) h =
    note-managed (get_group_syncer_for_provider p) (collect_syncers ps) s ss h.0
      (collect_syncers-Chosen ps ss h.1)

managed-inverse :
    (s : Syncer) (fs : List (Option Syncer)) (es : List Error) (ss : List Syncer)
    → managed (record { syncers = some s ∷ fs; errors = es }) ≡ ok ss
    → (managed (record { syncers = fs; errors = es }) ≡ ok (present fs)) × (ss ≡ s ∷ present fs)
managed-inverse s fs [] ss h = (refl, cc)
managed-inverse s fs (e ∷ es) ss h = absurd (cc)

note-inverse :
    (r : Result Syncer) (rest : Result Found) (ss : List Syncer)
    → and_then (note r rest) ≡ ok ss
    → (s : Syncer) × (r ≡ ok s) × (ts : List Syncer) × (and_then rest ≡ ok ts) × (ss ≡ s ∷ ts)
note-inverse (ok s) (ok f) ss h =
    let (a, b) = managed-inverse s f.syncers f.errors ss h in (s, refl, present f.syncers, a, b)
note-inverse (ok s) (err e) ss h = absurd (cc)
note-inverse (ok s) panic ss h = absurd (cc)
note-inverse (err e) (ok f) ss h = absurd (cc)
note-inverse (err e) (err x) ss h = absurd (cc)
note-inverse (err e) panic ss h = absurd (cc)
note-inverse panic rest ss h = absurd (cc)

Chosen-collect_syncers :
    (ps : List Provider) (ss : List Syncer) → and_then (collect_syncers ps) ≡ ok ss → Chosen ps ss
unfolding collect_syncers
Chosen-collect_syncers [] [] h = tt
Chosen-collect_syncers [] (s ∷ ss) h = absurd (cc)
Chosen-collect_syncers (p ∷ ps) ss h =
    let (s, e, ts, k, q) =
      note-inverse (get_group_syncer_for_provider p) (collect_syncers ps) ss h in
    rw q (e, Chosen-collect_syncers ps ts k)

-- The manager is made, with the syncers `ss`, exactly when each provider of the resource, in order,
-- has the syncer at its place.
pub get_group_sync_mgr_iff :
    (i : GroupSync) (ss : List Syncer) → (get_group_sync_mgr i ≡ ok ss) ↔ Chosen i.spec.providers ss
unfolding get_group_sync_mgr
get_group_sync_mgr_iff i ss =
    (Chosen-collect_syncers i.spec.providers ss, collect_syncers-Chosen i.spec.providers ss)

set_defaults-set_defaults :
    (ss : List Syncer) → set_defaults (set_defaults ss).0 ≡ ((set_defaults ss).0, false)
unfolding set_defaults
set_defaults-set_defaults [] = refl
set_defaults-set_defaults (s ∷ ss) = rw (init-init s, set_defaults-set_defaults ss)

Chosen-write_all :
    (ps : List Provider) (ss : List Syncer)
    → Chosen ps ss
    → Chosen (write_all (set_defaults ss).0 ps) (set_defaults ss).0
unfolding set_defaults write_all
Chosen-write_all [] [] h = tt
Chosen-write_all [] (s ∷ ss) h = absurd h
Chosen-write_all (p ∷ ps) [] h = absurd h
Chosen-write_all (p ∷ ps) (s ∷ ss) h = (write_back_lem p s h.0, Chosen-write_all ps ss h.1)

-- After the defaults are written back to the resource, the manager made from it has the syncers
-- with the defaults, and setting the defaults again changes nothing and reports no change.
pub with_defaults_stable :
    (i : GroupSync) (ss : List Syncer)
    → get_group_sync_mgr i ≡ ok ss
    → (get_group_sync_mgr (with_defaults i (set_defaults ss).0) ≡ ok (set_defaults ss).0)
      × (set_defaults (set_defaults ss).0 ≡ ((set_defaults ss).0, false))
unfolding with_defaults
with_defaults_stable i ss h = (
  (get_group_sync_mgr_iff _ _).1
      (Chosen-write_all i.spec.providers ss ((get_group_sync_mgr_iff i ss).0 h)),
  set_defaults-set_defaults ss,
)

module _ {W : Type 0} where
  -- Each syncer validates, in the state that the ones before it left.
  abbrev pub AllValid : List (GroupSyncer W) → W → Type 0
  AllValid [] w = Unit
  AllValid (s ∷ ss) w = ((s.validate w).0 ≡ ok tt) × AllValid ss (s.validate w).1

  validate_all-AllValid :
      (ss : List (GroupSyncer W)) (w : W) → AllValid ss w → (validate_all ss w).0 ≡ ok []
  unfolding validate_all
  validate_all-AllValid [] w h = refl
  validate_all-AllValid (s ∷ ss) w h = rw h.0 (validate_all-AllValid ss (s.validate w).1 h.1)

  after_validation-inverse :
      (r : Result (Unit {0})) (w : W) (rest : Result (List Error) × W)
      → (after_validation r w rest).0 ≡ ok []
      → (r ≡ ok tt) × (rest.0 ≡ ok [])
  after_validation-inverse (ok _) w rest h = (refl, h)
  after_validation-inverse (err e) w (ok es, v) h = absurd (cc)
  after_validation-inverse (err e) w (err x, v) h = absurd (cc)
  after_validation-inverse (err e) w (panic, v) h = absurd (cc)
  after_validation-inverse panic w rest h = absurd (cc)

  AllValid-validate_all :
      (ss : List (GroupSyncer W)) (w : W) → (validate_all ss w).0 ≡ ok [] → AllValid ss w
  unfolding validate_all
  AllValid-validate_all [] w h = tt
  AllValid-validate_all (s ∷ ss) w h =
      let (e, k) =
        after_validation-inverse (s.validate w).0 (s.validate w).1
          (validate_all ss (s.validate w).1) h in
      (e, AllValid-validate_all ss (s.validate w).1 k)

-- A schedule that is left out, or that is parsed.
abbrev pub ScheduleAccepted : (String → Bool) → String → Type 0
ScheduleAccepted parses schedule = ((schedule == "") ≡ true) ⊎ (parses schedule ≡ true)

schedule_errors-accepted :
    (parses : String → Bool) (schedule : String)
    → ScheduleAccepted parses schedule
    → schedule_errors parses schedule ≡ []
schedule_errors-accepted parses schedule h = ground arith

accepted-schedule_errors :
    (parses : String → Bool) (schedule : String) (es : List Error)
    → schedule_errors parses schedule ++ es ≡ []
    → ScheduleAccepted parses schedule × (es ≡ [])
accepted-schedule_errors parses schedule es h = elim (Bool-cases (schedule == "")) [
  | inl y ↦ (inl y, rw y at h)
  | inr f ↦ elim (Bool-cases (parses schedule)) [
    | inl y ↦ (inr y, rw (f, y) at h)
    | inr g ↦ absurd (let k : _ = rw (f, g) at h in cc)
  ]
]

module _ {W : Type 0} where
  validated :
      (parses : String → Bool) (schedule : String) (r : Result (List Error)) (w : W)
      → (continue r (λ es. lift (new_aggregate (schedule_errors parses schedule ++ es))) w).0
        ≡ ok tt
      → ScheduleAccepted parses schedule × (r ≡ ok [])
  validated parses schedule (ok es) w h =
      let (a, e) =
        accepted-schedule_errors parses schedule es
          (new_aggregate-eq_ok (schedule_errors parses schedule ++ es) h) in
      (a, ap ok e)
  validated parses schedule (err e) w h = absurd (cc)
  validated parses schedule panic w h = absurd (cc)

  -- A resource passes the validation exactly when its schedule is left out or is parsed and each
  -- syncer, in the state that the syncers before it left, reports no error.
  pub validate_iff :
      (parses : String → Bool) (schedule : String) (ss : List (GroupSyncer W)) (w : W)
      → ((validate parses schedule ss w).0 ≡ ok tt)
        ↔ (ScheduleAccepted parses schedule × AllValid ss w)
  unfolding validate
  validate_iff parses schedule ss w = (
    λ h.
        let (a, e) = validated parses schedule (validate_all ss w).0 (validate_all ss w).1 h in
        (a, AllValid-validate_all ss w e),
    λ h. rw (validate_all-AllValid ss w h.1, schedule_errors-accepted parses schedule h.0),
  )

-- With no list every group is allowed; with a list, exactly the groups that are named in it.
is_group_allowed_iff :
    (name : String) (allowed : List String)
    → (is_group_allowed name allowed ≡ true) ↔ ((allowed ≡ []) ⊎ Occurs name allowed)
unfolding is_group_allowed
is_group_allowed_iff name [] = (λ h. inl refl, λ h. refl)
is_group_allowed_iff name (x ∷ xs) = (
  λ h. inr ((member_iff name (x ∷ xs)).0 h),
  λ h. elim h [ inl e ↦ absurd (cc) | inr o ↦ (member_iff name (x ∷ xs)).1 o ],
)
