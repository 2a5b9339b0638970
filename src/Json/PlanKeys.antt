-- ===== src/Json/PlanKeys.antt =====
-- Plans read by src/common/json_utils/JsonUtils.cpp have distinct names.
use mavlink_hub.Base.{◌≡◌, subst, Bool, true, false, not, List, [], ◌∷◌, if◌then◌else◌, inl, inr}
use mavlink_hub.Base.Dict
use mavlink_hub.Base.Dict.{Dict, NodupKeys, insert-NodupKeys}
use mavlink_hub.Manager.Types.{UserPlanPolicy, discard, best_effort, unnamed, UserPlan}
use mavlink_hub.Json.Api.{JsonApi, Decoded, thrown, nothing, just, ◌>>=◌}
use mavlink_hub.Json.Decode.{
  Element, is_best_effort, endpoint_element, agent_element, read_elements, json_to_endpoint_list,
  json_to_agent_list, json_to_user_plan, read_policy, read_endpoints, read_agents, or_empty,
}
use mavlink_hub.Json.PlanLaws.{Element-cases}

-- A property of the value, if there is one.
abbrev AllJust {ℓ κ} : {A : Type ℓ} → (A → Type κ) → Decoded A → Type κ
AllJust P thrown = Unit
AllJust P nothing = Unit
AllJust P (just a) = P a

AllJust->>= {ℓ κ ι} :
    {A : Type ℓ} {B : Type κ} (P : A → Type ι) (Q : B → Type ι) (m : Decoded A) (f : A → Decoded B)
    → AllJust P m
    → ((a : A) → P a → AllJust Q (f a))
    → AllJust Q (m >>= f)
AllJust->>= P Q thrown f p k = tt
AllJust->>= P Q nothing f p k = tt
AllJust->>= P Q (just a) f p k = k a p

AllJust-elim {ℓ κ} :
    {A : Type ℓ} (P : A → Type κ) (m : Decoded A) (a : A) → AllJust P m → m ≡ just a → P a
AllJust-elim P m a p e = subst (AllJust P) e p

AllJust-if {ℓ κ} :
    {A : Type ℓ} (P : A → Type κ) (b : Bool) (x y : Decoded A)
    → AllJust P x
    → AllJust P y
    → AllJust P (if b then x else y)
AllJust-if P true x y p q = p
AllJust-if P false x y p q = q

AllJust-or_empty :
    {V : Type 0} (J : JsonApi) (policy : UserPlanPolicy) (m : Decoded (Dict V))
    → AllJust NodupKeys m
    → AllJust NodupKeys (or_empty J policy m)
unfolding or_empty
AllJust-or_empty J discard thrown p = tt
AllJust-or_empty J discard nothing p = tt
AllJust-or_empty J discard (just list) p = p
AllJust-or_empty J best_effort thrown p = tt
AllJust-or_empty J best_effort nothing p = tt
AllJust-or_empty J best_effort (just list) p = p
AllJust-or_empty J (unnamed n) thrown p = tt
AllJust-or_empty J (unnamed n) nothing p = tt
AllJust-or_empty J (unnamed n) (just list) p = p

module _ (J : JsonApi) where
  read_elements-NodupKeys :
      {V : Type 0} (read : J.Json → Element V) (policy : UserPlanPolicy) (es : List J.Json)
      (list : Dict V)
      → NodupKeys list
      → AllJust NodupKeys (read_elements J read policy es list)
  unfolding read_elements
  read_elements-NodupKeys read policy [] list u = u
  read_elements-NodupKeys read policy (e ∷ es) list u = elim (Element-cases (read e)) [
    | inl f ↦ rw (f, read_elements) tt
    | inr (inl f) ↦
        rw (f, read_elements) (skip policy (read_elements-NodupKeys read policy es list u))
    | inr (inr (name, v, f)) ↦
        rw (f, read_elements)
          (read_elements-NodupKeys read policy es (Dict.insert name v list)
            (insert-NodupKeys name v list u))
  ]
    where
      skip :
          (p : UserPlanPolicy)
          → AllJust NodupKeys (read_elements J read policy es list)
          → AllJust NodupKeys (elim (is_best_effort p) [
            | true ↦ read_elements J read policy es list
            | false ↦ nothing
          ])
      skip discard h = tt
      skip best_effort h = h
      skip (unnamed n) h = tt

  read_endpoints-NodupKeys :
      (j : J.Json) (policy : UserPlanPolicy) → AllJust NodupKeys (read_endpoints J j policy)
  unfolding read_endpoints json_to_endpoint_list
  read_endpoints-NodupKeys j policy =
      let list = J.at j "endpoint_list" in
      AllJust-if NodupKeys (J.contains j "endpoint_list") _ _
        (AllJust-or_empty J policy (json_to_endpoint_list J list policy) (
          AllJust-if NodupKeys (not (J.is_array list)) _ _ tt
            (read_elements-NodupKeys (endpoint_element J) policy (J.array_range list) [] tt)))
        tt

  read_agents-NodupKeys :
      (j : J.Json) (policy : UserPlanPolicy) → AllJust NodupKeys (read_agents J j policy)
  unfolding read_agents json_to_agent_list
  read_agents-NodupKeys j policy =
      let list = J.at j "agent_list" in
      AllJust-if NodupKeys (J.contains j "agent_list") _ _
        (AllJust-or_empty J policy (json_to_agent_list J list policy) (
          AllJust-if NodupKeys (not (J.is_array list)) _ _ tt
            (read_elements-NodupKeys (agent_element J) policy (J.array_range list) [] tt)))
        tt

  abbrev Keyed : UserPlan → Type 0
  Keyed plan = NodupKeys plan.endpoint_list × NodupKeys plan.agent_list

  AllJust-Keyed :
      (uninit : UserPlanPolicy) (j : J.Json) → AllJust Keyed (json_to_user_plan J uninit j)
  unfolding json_to_user_plan
  AllJust-Keyed uninit j =
      AllJust->>= (λ p. Unit {0}) Keyed (read_policy J uninit j) _ (any (read_policy J uninit j))
        λ policy _.
          AllJust->>= NodupKeys Keyed (read_endpoints J j policy) _
            (read_endpoints-NodupKeys j policy)
            λ endpoints u.
              AllJust->>= NodupKeys Keyed (read_agents J j policy) _
                (read_agents-NodupKeys j policy) λ agents v. (u, v)
    where
      any : (m : Decoded UserPlanPolicy) → AllJust (λ p. Unit {0}) m
      any thrown = tt
      any nothing = tt
      any (just a) = tt

  pub json_to_user_plan-NodupKeys :
      (uninit : UserPlanPolicy) (j : J.Json) (plan : UserPlan)
      → json_to_user_plan J uninit j ≡ just plan
      → NodupKeys plan.endpoint_list × NodupKeys plan.agent_list
  json_to_user_plan-NodupKeys uninit j plan e =
      AllJust-elim Keyed (json_to_user_plan J uninit j) plan (AllJust-Keyed uninit j) e
