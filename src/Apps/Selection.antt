-- ===== src/Apps/Selection.antt =====
-- Which instances of a project the temporary data holds after a call.
use grpc_gw_controller.Base.{
  true, not, List, [], ◌∷◌, string_eq, bytes_Eq, bytes_eq_iff, arith, ◌≡◌, ◌≢◌, ◌⊎◌, ◌↔◌, inl, refl,
}
use grpc_gw_controller.Base.Text.{Bytes}
use grpc_gw_controller.Maps.{Map, get}
use grpc_gw_controller.Messages.{AppStateAfterDeployment, disabled, enabled, other, state_eq}
use grpc_gw_controller.Apps.{AppInstanceData, GenericRequester, upgrade, recreate}
use grpc_gw_controller.Apps.Running.{
  group_found, in_groups, differs, passes_filters, new_state, requested, action,
}

-- A filter lets everything pass where it is empty.
abbrev pub Agrees : Bytes → Bytes → Type 0
Agrees wanted found = (wanted ≡ []) ⊎ (wanted ≡ found)

pub differs_iff : (w f : Bytes) → (not (differs w f) ≡ true) ↔ Agrees w f
differs_iff w f = ground (arith, bytes_eq_iff w [], bytes_eq_iff w f)

abbrev pub IsOneOf : Bytes → List Bytes → Type 0
IsOneOf g [] = ⊥
IsOneOf g (x ∷ xs) = (x ≡ g) ⊎ IsOneOf g xs

group_found_iff : (gids : List Bytes) (g : Bytes) → (group_found gids g ≡ true) ↔ IsOneOf g gids
unfolding group_found
group_found_iff [] g = ground arith
group_found_iff (x ∷ xs) g = ground (arith, bytes_eq_iff x g, group_found_iff xs g)

pub in_groups_iff :
    (gids : List Bytes) (g : Bytes) → (in_groups gids g ≡ true) ↔ ((gids ≡ []) ⊎ IsOneOf g gids)
in_groups_iff [] g = (λ _. inl refl, λ _. refl)
in_groups_iff (x ∷ xs) g = ground (arith, group_found_iff (x ∷ xs) g)

-- The state of the request is never used.
pub new_state_unused :
    {E : Type 0} (s : AppStateAfterDeployment) (a : Map)
    → new_state {E = E} s a ≡ new_state disabled a
unfolding new_state state_eq
new_state_unused disabled a = refl
new_state_unused enabled a = refl
new_state_unused (other n) a = refl

module _ (req : GenericRequester) (cycle : Bytes) where
  -- The application of an instance is one that the request is about.
  abbrev pub IsAskedFor : Map → Type 0
  IsAskedFor a =
      (get a "apphc.app.basename" ≢ [])
      × Agrees req.name (get a "apphc.app.basename")
      × Agrees cycle (get a "apphc.app.cycle")
      × Agrees req.root_group_id (get a "apphc.app.instance.root_group_id")
      × (get a "apphc.app.instance.group_id" ≢ [])

  pub passes_filters_iff : (a : Map) → (passes_filters req cycle a ≡ true) ↔ IsAskedFor a
  unfolding passes_filters
  passes_filters_iff a = ground (
    arith,
    differs_iff req.name (get a "apphc.app.basename"),
    differs_iff cycle (get a "apphc.app.cycle"),
    differs_iff req.root_group_id (get a "apphc.app.instance.root_group_id"),
    bytes_eq_iff (get a "apphc.app.basename") [],
    bytes_eq_iff (get a "apphc.app.instance.group_id") [],
  )

  abbrev pub InGroups : Map → Type 0
  InGroups a = (req.group_ids ≡ []) ⊎ IsOneOf (get a "apphc.app.instance.group_id") req.group_ids

  -- What holds of an instance that is recorded under the application `k`: it is recreated where the
  -- request names no version or the version it has, and upgraded to the version of the request
  -- otherwise.
  abbrev pub IsRecorded : Bytes → AppInstanceData → Type 0
  IsRecorded k i =
      (get i.annotations "apphc.app.basename" ≡ k)
      × IsAskedFor i.annotations
      × InGroups i.annotations
      × ((Agrees req.version i.current_version
            × (i.requested_version ≡ i.current_version)
            × (i.next_action ≡ recreate))
          ⊎ ((req.version ≢ [])
              × (req.version ≢ i.current_version)
              × (i.requested_version ≡ req.version)
              × (i.next_action ≡ upgrade)))

  pub version_rule :
      (current : Bytes)
      → (Agrees req.version current
          × (requested req.version current ≡ current)
          × (action req.version current ≡ recreate))
        ⊎ ((req.version ≢ [])
            × (req.version ≢ current)
            × (requested req.version current ≡ req.version)
            × (action req.version current ≡ upgrade))
  version_rule current =
      ground (arith, bytes_eq_iff req.version [], bytes_eq_iff current req.version)
