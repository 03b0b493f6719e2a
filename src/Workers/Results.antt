-- ===== src/Workers/Results.antt =====
-- What `createUpgradeApps` reports, whatever the order in which its goroutines run.
use grpc_gw_controller.Base.{
  ℕ, Option, none, some, List, [], ◌∷◌, ◌++◌, ◌==◌, ==_iff, get_elem?, All, All-append, All-map,
  ◌≡◌, ◌≢◌, inl, inr, refl, sym, ◌∙◌, ap, Bool-cases,
}
use grpc_gw_controller.Base.Text.{Bytes}
use grpc_gw_controller.Apps.{
  AppInstanceData, NextAction, no_value, create, upgrade, delete, recreate, keep,
}
use grpc_gw_controller.Workers.{
  AppInstance, generate_proto_data, ApiClient, Phase, ready, deleted, failed, failed_read, done,
  done_read, reported_error, reported_done, idle, Pool, set_phase, after_call, after_delete,
  after_recreate, first_call, step,
}

-- A phase in which a goroutine has neither reported nor read the list of instances.
abbrev pub IsQuiet : Phase → Type 0
IsQuiet p = (p ≢ reported_error) × (p ≢ reported_done) × ((l : List AppInstance) → p ≢ done_read l)

-- There is an error in the slice exactly when a goroutine has reported one.
abbrev pub AreReported : List Bytes → (ℕ → Phase) → Type 0
AreReported es ph =
    ((j : ℕ) → ph j ≡ reported_error → es ≢ []) × (es ≢ [] → (j : ℕ) × (ph j ≡ reported_error))

call-IsQuiet : (o : Option Bytes) → IsQuiet (after_call o)
call-IsQuiet none = (λ h. cc, λ h. cc, λ l h. cc)
call-IsQuiet (some e) = (λ h. cc, λ h. cc, λ l h. cc)

delete-IsQuiet : (o : Option Bytes) → IsQuiet (after_delete o)
delete-IsQuiet none = (λ h. cc, λ h. cc, λ l h. cc)
delete-IsQuiet (some e) = (λ h. cc, λ h. cc, λ l h. cc)

recreate-IsQuiet : (n : Bytes) (o : Option Bytes) → IsQuiet (after_recreate n o)
recreate-IsQuiet n none = (λ h. cc, λ h. cc, λ l h. cc)
recreate-IsQuiet n (some e) = (λ h. cc, λ h. cc, λ l h. cc)

set_phase-AreReported :
    (es : List Bytes) (ph : ℕ → Phase) (k : ℕ) (q : Phase)
    → ph k ≢ reported_error
    → q ≢ reported_error
    → AreReported es ph
    → AreReported es (set_phase k q ph)
set_phase-AreReported es ph k q n nq (a, b) = (
  λ j. elim (Bool-cases (j == k)) [ inl e ↦ rw e (λ h. absurd (nq h)) | inr e ↦ rw e (a j) ],
  λ x.
      let w = b x in
      (
        w.0,
        elim (Bool-cases (w.0 == k)) [
          | inl e ↦ absurd (n (ap ph (sym ((==_iff w.0 k).0 e)) ∙ w.1))
          | inr e ↦ rw e w.1
        ],
      ),
)

append-nonempty : (es : List Bytes) (e : Bytes) → (es ++ e ∷ []) ≢ []
append-nonempty [] e h = cc
append-nonempty (x ∷ es) e h = cc

report-AreReported :
    (es : List Bytes) (e : Bytes) (ph : ℕ → Phase) (k : ℕ)
    → AreReported (es ++ e ∷ []) (set_phase k reported_error ph)
report-AreReported es e ph k =
    (λ j h. append-nonempty es e, λ h. (k, rw ((==_iff k k).1 refl) refl))

abbrev what_was_read : Phase → List AppInstance
what_was_read (done_read l) = l
what_was_read _ = []

done_read-injective : {l m : List AppInstance} → done_read l ≡ done_read m → l ≡ m
done_read-injective h = ap what_was_read h

module _ {W : Type 0} (api : ApiClient W) (catalog_id : Bytes)
    (instances : List AppInstanceData) where
  -- The goroutine that put an entry into the list of the instances that are done.
  abbrev pub HasWorker : (ℕ → Phase) → AppInstance → Type 0
  HasWorker ph a =
      (j : ℕ) × (i : AppInstanceData) × (get_elem? instances j ≡ some i)
      × (a ≡ generate_proto_data i catalog_id)
      × (ph j ≡ reported_done)

  -- The invariant of a run.
  pub record IsConsistent (m : Pool W) : Type 0 where
    pub errors_reported : AreReported m.errors m.phase
    pub entries_done : All (HasWorker m.phase) m.done_list
    pub read_done :
        (k : ℕ) (l : List AppInstance) → m.phase k ≡ done_read l → All (HasWorker m.phase) l

  set_phase-HasWorker :
      (ph : ℕ → Phase) (k : ℕ) (q : Phase)
      → ph k ≢ reported_done
      → (l : List AppInstance) → All (HasWorker ph) l
      → All (HasWorker (set_phase k q ph)) l
  set_phase-HasWorker ph k q n l h =
      All-map (HasWorker ph) (HasWorker (set_phase k q ph))
        (λ a (j, i, g, e, r). (
          j,
          i,
          g,
          e,
          elim (Bool-cases (j == k)) [
            | inl f ↦ absurd (n (ap ph (sym ((==_iff j k).0 f)) ∙ r))
            | inr f ↦ rw f r
          ],
        ))
        l h

  first-IsQuiet :
      (i : AppInstanceData) (a : NextAction) (w : W) → IsQuiet (first_call api catalog_id i a w).0
  unfolding first_call
  first-IsQuiet i create w = call-IsQuiet (api.create_app_instance i i.requested_version w).0
  first-IsQuiet i upgrade w = call-IsQuiet (api.upgrade_app_instance i w).0
  first-IsQuiet i recreate w = delete-IsQuiet (api.delete_app_instance i i.current_version w).0
  first-IsQuiet i no_value w = (λ h. cc, λ h. cc, λ l h. cc)
  first-IsQuiet i delete w = (λ h. cc, λ h. cc, λ l h. cc)
  first-IsQuiet i keep w = (λ h. cc, λ h. cc, λ l h. cc)

  quiet-IsConsistent :
      (m : Pool W) (w : W) (k : ℕ) (q : Phase)
      → m.phase k ≢ reported_error
      → m.phase k ≢ reported_done
      → q ≢ reported_error
      → ((l : List AppInstance) → q ≡ done_read l → All (HasWorker m.phase) l)
      → IsConsistent m
      → IsConsistent (record m { world = w; phase = set_phase k q m.phase })
  quiet-IsConsistent m w k q ne nd qe qr c = record {
    errors_reported = set_phase-AreReported m.errors m.phase k q ne qe c.errors_reported;
    entries_done = set_phase-HasWorker m.phase k q nd m.done_list c.entries_done;
    read_done = λ j l. elim (Bool-cases (j == k)) [
      | inl e ↦ rw e (λ h. set_phase-HasWorker m.phase k q nd l (qr l h))
      | inr e ↦ rw e (λ h. set_phase-HasWorker m.phase k q nd l (c.read_done j l h))
    ];
  }

  -- A goroutine that reports an error.
  error-IsConsistent :
      (m : Pool W) (k : ℕ) (es : List Bytes) (e : Bytes)
      → m.phase k ≢ reported_done
      → IsConsistent m
      → IsConsistent
          (record m { errors = es ++ e ∷ []; phase = set_phase k reported_error m.phase })
  error-IsConsistent m k es e nd c = record {
    errors_reported = report-AreReported es e m.phase k;
    entries_done = set_phase-HasWorker m.phase k reported_error nd m.done_list c.entries_done;
    read_done = λ j l. elim (Bool-cases (j == k)) [
      | inl x ↦ rw x (λ h. cc)
      | inr x ↦ rw x (λ h. set_phase-HasWorker m.phase k reported_error nd l (c.read_done j l h))
    ];
  }

  -- A goroutine that reports its instance.
  done-IsConsistent :
      (m : Pool W) (k : ℕ) (i : AppInstanceData) (l : List AppInstance)
      → get_elem? instances k ≡ some i
      → m.phase k ≡ done_read l
      → IsConsistent m
      → IsConsistent (record m {
        done_list = l ++ generate_proto_data i catalog_id ∷ [];
        phase = set_phase k reported_done m.phase;
      })
  done-IsConsistent m k i l g e c =
      let ph = set_phase k reported_done m.phase in
      let ne : m.phase k ≢ reported_error = (λ h. cc (h, e)) in
      let nd : m.phase k ≢ reported_done = (λ h. cc (h, e)) in
      record {
        errors_reported =
            set_phase-AreReported m.errors m.phase k reported_done ne (λ h. cc) c.errors_reported;
        entries_done =
            All-append (HasWorker ph) l (generate_proto_data i catalog_id ∷ [])
              (set_phase-HasWorker m.phase k reported_done nd l (c.read_done k l e))
              ((k, i, g, refl, rw ((==_iff k k).1 refl) refl), tt);
        read_done = λ j x. elim (Bool-cases (j == k)) [
          | inl y ↦ rw y (λ h. cc)
          | inr y ↦ rw y (λ h. set_phase-HasWorker m.phase k reported_done nd x (c.read_done j x h))
        ];
      }

  pub step-IsConsistent :
      (k : ℕ) (i : AppInstanceData) (p : Phase) (m : Pool W)
      → get_elem? instances k ≡ some i
      → m.phase k ≡ p
      → IsConsistent m
      → IsConsistent (step api catalog_id k i p m)
  unfolding step
  step-IsConsistent k i ready m g e c =
      let r = first_call api catalog_id i i.next_action m.world in
      let q = first-IsQuiet i i.next_action m.world in
      quiet-IsConsistent m r.1 k r.0 (λ h. cc (h, e)) (λ h. cc (h, e)) q.0 (λ l h. absurd (q.2 l h))
        c
  step-IsConsistent k i deleted m g e c =
      let r = api.create_app_instance i i.requested_version m.world in
      let q = recreate-IsQuiet i.instance_name r.0 in
      quiet-IsConsistent m r.1 k (after_recreate i.instance_name r.0) (λ h. cc (h, e))
        (λ h. cc (h, e)) q.0 (λ l h. absurd (q.2 l h)) c
  step-IsConsistent k i (failed x) m g e c =
      quiet-IsConsistent m m.world k (failed_read x m.errors) (λ h. cc (h, e)) (λ h. cc (h, e))
        (λ h. cc) (λ l h. cc) c
  step-IsConsistent k i (failed_read x es) m g e c = error-IsConsistent m k es x (λ h. cc (h, e)) c
  step-IsConsistent k i done m g e c =
      quiet-IsConsistent m m.world k (done_read m.done_list) (λ h. cc (h, e)) (λ h. cc (h, e))
        (λ h. cc) (λ l h. rw (sym (done_read-injective h)) c.entries_done) c
  step-IsConsistent k i (done_read l) m g e c = done-IsConsistent m k i l g e c
  step-IsConsistent k i reported_error m g e c = c
  step-IsConsistent k i reported_done m g e c = c
  step-IsConsistent k i idle m g e c = c
