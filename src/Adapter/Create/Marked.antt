-- ===== src/Adapter/Create/Marked.antt =====
-- The instances of a request that run already, through the marks and the charts of `CreateApp`.
use grpc_gw_controller.Base.{
  Bool, true, false, List, [], ◌∷◌, Outcome, ok, err, panic, All, Holds, if◌then◌else◌, bytes_eq,
  Bool-cases, ◌≡◌, ◌⊎◌, inl, inr, refl,
}
use grpc_gw_controller.Base.Text.{Bytes}
use grpc_gw_controller.Maps.{get}
use grpc_gw_controller.Messages.{AppRequest}
use grpc_gw_controller.Apps.{AppInstanceData, keep}
use grpc_gw_controller.Charts.{no_fields}
use grpc_gw_controller.Charts.Spec.{is_unset}
use grpc_gw_controller.Charts.SetData.{set_chart_data}
use grpc_gw_controller.Adapter.Deploy.{DeployClient, DeploySettings, then_call, then_cons}
use grpc_gw_controller.Adapter.Create.{mark, mark_all, chart_dir, make_chart, make_charts}
use grpc_gw_controller.Adapter.Create.Kept.{Idle, Stays, set_chart_data-Stays}

-- A running instance has the name.
abbrev pub Runs : List AppInstanceData → Bytes → Type 0
Runs [] n = ⊥
Runs (r ∷ rs) n = (bytes_eq n r.instance_name ≡ true) ⊎ Runs rs n

pub then_call-Holds :
    {W A B : Type 0} (Q : A → Type 0) (P : B → Type 0) (x : Outcome Bytes A × W)
    (f : A → W → Outcome Bytes B × W)
    → Holds Q x.0
    → ((a : A) (w : W) → Q a → Holds P (f a w).0)
    → Holds P (then_call x f).0
then_call-Holds Q P (ok a, w) f h g = g a w h
then_call-Holds Q P (err e, w) f h g = tt
then_call-Holds Q P (panic, w) f h g = tt

-- A call whose result says nothing.
pub any_call-Holds :
    {W A B : Type 0} (P : B → Type 0) (x : Outcome Bytes A × W) (f : A → W → Outcome Bytes B × W)
    → ((a : A) (w : W) → Holds P (f a w).0)
    → Holds P (then_call x f).0
any_call-Holds P (ok a, w) f g = g a w
any_call-Holds P (err e, w) f g = tt
any_call-Holds P (panic, w) f g = tt

pub if_Holds :
    {W A : Type 0} (P : A → Type 0) (b : Bool) (x y : Outcome Bytes A × W)
    → Holds P x.0
    → Holds P y.0
    → Holds P (if b then x else y).0
if_Holds P true x y h g = h
if_Holds P false x y h g = g

module _ {W A : Type 0} (P : A → Type 0) where
  then_cons-Holds :
      (x : Outcome Bytes A × W) (rest : W → Outcome Bytes (List A) × W)
      → Holds P x.0
      → ((w : W) → Holds (All P) (rest w).0)
      → Holds (All P) (then_cons x rest).0
  then_cons-Holds x rest h g =
      then_call-Holds P (All P) x _ h
        (λ a w p. then_call-Holds (All P) (All P) (rest w) _ (g w) (λ as' w1 ps. (p, ps)))

module _ {F Q W : Type 0} (cl : DeployClient F Q W) (settings : DeploySettings) where
  -- What has nothing to do stays so, and what runs gets nothing to do.
  mark-Idle :
      (n : AppInstanceData) (rs : List AppInstanceData) (w : W)
      → Idle n
      → Holds Idle (mark cl settings n rs w).0
  unfolding mark
  mark-Idle n [] w h = h
  mark-Idle n (r ∷ rs) w h = elim (Bool-cases (bytes_eq n.instance_name r.instance_name)) [
    | inl e ↦
        rw e
          (mark-Idle (record n { next_action = keep; template_available = true }) rs w (refl, h.1))
    | inr e ↦ rw e (
        any_call-Holds Idle
          (cl.catalog.template_available (get n.annotations "apphc.app.instance.template_name")
            n.requested_version w)
          _ (λ b w1. mark-Idle (record n { template_available = b }) rs w1 h))
  ]

  mark-Runs :
      (n : AppInstanceData) (rs : List AppInstanceData) (w : W)
      → is_unset n.instance_storage_size ≡ true
      → Runs rs n.instance_name
      → Holds Idle (mark cl settings n rs w).0
  unfolding mark
  mark-Runs n [] w u h = absurd h
  mark-Runs n (r ∷ rs) w u h = elim (Bool-cases (bytes_eq n.instance_name r.instance_name)) [
    | inl e ↦
        rw e (mark-Idle (record n { next_action = keep; template_available = true }) rs w (refl, u))
    | inr e ↦ rw e (
        any_call-Holds Idle
          (cl.catalog.template_available (get n.annotations "apphc.app.instance.template_name")
            n.requested_version w)
          _
          (λ b w1.
            mark-Runs (record n { template_available = b }) rs w1 u
              (elim h [ inl g ↦ absurd cc | inr g ↦ g ])))
  ]

  -- A new instance that runs already.
  abbrev pub IsRepeated : List AppInstanceData → AppInstanceData → Type 0
  IsRepeated rs n = (is_unset n.instance_storage_size ≡ true) × Runs rs n.instance_name

  pub mark_all-Idle :
      (ns rs : List AppInstanceData) (w : W)
      → All (IsRepeated rs) ns
      → Holds (All Idle) (mark_all cl settings ns rs w).0
  unfolding mark_all
  mark_all-Idle [] rs w h = tt
  mark_all-Idle (n ∷ ns) rs w h =
      then_cons-Holds Idle (mark cl settings n rs w) (mark_all cl settings ns rs)
        (mark-Runs n rs w h.0.0 h.0.1) (λ w1. mark_all-Idle ns rs w1 h.1)

  module _ (req : AppRequest F) (chart_type : Bytes) where
    make_chart-Stays :
        (i : AppInstanceData) (w : W)
        → Idle i
        → Holds Stays (make_chart cl settings req chart_type i w).0
    unfolding make_chart
    make_chart-Stays i w h =
        if_Holds Stays i.template_available (ok i, w) _ h.0
          (then_call-Holds Stays Stays
            (
              set_chart_data (cl.reader w) settings.flex_api req
                  (chart_dir cl settings req chart_type i) no_fields i,
              w,
            )
            _ (set_chart_data-Stays (cl.reader w) settings.flex_api req _ i h)
            (λ d w1 p. search (any_call-Holds)))

    pub make_charts-Stays :
        (is : List AppInstanceData) (w : W)
        → All Idle is
        → Holds (All Stays) (make_charts cl settings req chart_type is w).0
    unfolding make_charts
    make_charts-Stays [] w h = tt
    make_charts-Stays (i ∷ is) w h =
        then_cons-Holds Stays (make_chart cl settings req chart_type i w)
          (make_charts cl settings req chart_type is) (make_chart-Stays i w h.0)
          (λ w1. make_charts-Stays is w1 h.1)
