-- ===== src/Manager/Order.antt =====
-- The maps of a plan are unordered: what `executePlan` of src/manager/Manager.cpp decides and which
-- endpoints it leaves does not depend on the order in which their entries come.
use mavlink_hub.Base.{
  String, ◌≡◌, refl, sym, ◌∙◌, ap, ◌↔◌, Bool, true, false, Bool-cases, [], ◌∷◌, ◌==◌, eq_iff, inl,
  inr, ◌⊎◌, arith,
}
use mathlib.Core.Bool.{Bool-set}
use mathlib.Core.Quot
use mathlib.Core.Quot.{Quot}
use mavlink_hub.Base.Dict.{Dict, NodupKeys, lookup}
use mavlink_hub.Sdk.{Sdk}
use mavlink_hub.Manager.Types.{UserPlanPolicy, discard, best_effort, unnamed, UserPlan}
use mavlink_hub.Manager.State.{Manager, Registries}
use mavlink_hub.Manager.Plan.{validate_plan}
use mavlink_hub.Manager.Execute.{is_discard, discards, execute_plan}
use mavlink_hub.Manager.Frame.{has}
use mavlink_hub.Manager.Validity.{validate_endpoints-lookup, validate_agents-lookup}
use mavlink_hub.Manager.Discard.{HasInvalid, execute_plan_atomic}
use mavlink_hub.Manager.Applied.{discards_iff, Runs, execute_plan-endpoints}

-- Two maps have the same entries.
abbrev pub SameEntries {ℓ} : {V : Type ℓ} → Dict V → Dict V → Type ℓ
SameEntries p q = (k : String) → lookup k p ≡ lookup k q

-- Two neighbours change places.
pub swap-SameEntries {ℓ} :
    {V : Type ℓ} (i j : String) (v w : V) (m : Dict V)
    → (i == j) ≡ false
    → SameEntries ((i, v) ∷ (j, w) ∷ m) ((j, w) ∷ (i, v) ∷ m)
unfolding lookup
swap-SameEntries i j v w m miss k = ground (arith, eq_iff i k, eq_iff j k, eq_iff i j)

-- A plan as its maps are: their keys are distinct.
abbrev pub KeyedPlan : Type 0
KeyedPlan = (plan : UserPlan) × NodupKeys plan.endpoint_list × NodupKeys plan.agent_list

abbrev pub SamePlan : KeyedPlan → KeyedPlan → Type 0
SamePlan p q =
    (p.0.policy ≡ q.0.policy)
    × SameEntries p.0.endpoint_list q.0.endpoint_list
    × SameEntries p.0.agent_list q.0.agent_list

-- A plan without its order.
abbrev pub UnorderedPlan : Type 0
UnorderedPlan = Quot SamePlan

SamePlan-sym : (p q : KeyedPlan) → SamePlan p q → SamePlan q p
SamePlan-sym p q s = (sym s.0, λ k. sym (s.1 k), λ k. sym (s.2 k))

bool_iff : (a b : Bool) → ((a ≡ true) ↔ (b ≡ true)) → a ≡ b
bool_iff a b h = ground (arith, h)

policy-cases : (policy : UserPlanPolicy) → (policy ≡ discard) ⊎ (is_discard policy ≡ false)
policy-cases discard = inl refl
policy-cases best_effort = inr refl
policy-cases (unnamed n) = inr refl

module _ (S : Sdk) (reg : Registries S) (m : Manager S) where
  same-HasInvalid :
      (p q : KeyedPlan) → SamePlan p q → HasInvalid S reg p.0 m → HasInvalid S reg q.0 m
  same-HasInvalid p q s (inl (name, spec, e, bad)) = inl (name, spec, sym (s.1 name) ∙ e, bad)
  same-HasInvalid p q s (inr (name, spec, e, bad)) = inr (name, spec, sym (s.2 name) ∙ e, bad)

  pub same-discards : (p q : KeyedPlan) → SamePlan p q → discards S reg p.0 m ≡ discards S reg q.0 m
  same-discards p q s =
      let of_p = discards_iff S reg p.0 m p.1 p.2 in
      let of_q = discards_iff S reg q.0 m q.1 q.2 in
      bool_iff _ _ (
        λ d. let h = of_p.0 d in of_q.1 (sym s.0 ∙ h.0, same-HasInvalid p q s h.1),
        λ d. let h = of_q.0 d in of_p.1 (s.0 ∙ h.0, same-HasInvalid q p (SamePlan-sym p q s) h.1),
      )

  discarded-names :
      (p : KeyedPlan) (k : String)
      → discards S reg p.0 m ≡ true
      → has k (execute_plan S reg p.0 m).0.endpoint_db ≡ has k m.endpoint_db
  discarded-names p k d =
      let h = (discards_iff S reg p.0 m p.1 p.2).0 d in
      ap (λ n. has k n.endpoint_db) (execute_plan_atomic S reg p.0 m h.0 p.1 p.2 h.1).0

  kept-Runs : (p : KeyedPlan) → discards S reg p.0 m ≡ false → Runs S reg p.0 m p.1 p.2
  kept-Runs p d = elim (policy-cases p.0.policy) [
    | inr b ↦ inl b
    | inl h ↦ inr (λ bad. cc ((discards_iff S reg p.0 m p.1 p.2).1 (h, bad), d))
  ]

  kept-names :
      (p q : KeyedPlan) (k : String)
      → SamePlan p q
      → discards S reg p.0 m ≡ false
      → discards S reg q.0 m ≡ false
      → has k (execute_plan S reg p.0 m).0.endpoint_db ≡ true
      → has k (execute_plan S reg q.0 m).0.endpoint_db ≡ true
  kept-names p q k s dp dq there =
      (execute_plan-endpoints S reg q.0 m q.1 q.2 k (kept-Runs q dq)).1
        (elim ((execute_plan-endpoints S reg p.0 m p.1 p.2 k (kept-Runs p dp)).0 there) [
          | inl old ↦ inl old
          | inr (spec, e, valid) ↦ inr (spec, sym (s.1 k) ∙ e, valid)
        ])

  pub same-names :
      (p q : KeyedPlan) (k : String)
      → SamePlan p q
      → has k (execute_plan S reg p.0 m).0.endpoint_db
        ≡ has k (execute_plan S reg q.0 m).0.endpoint_db
  same-names p q k s =
      let same = same-discards p q s in
      elim (Bool-cases (discards S reg p.0 m)) [
        | inl d ↦ discarded-names p k d ∙ sym (discarded-names q k (sym same ∙ d))
        | inr d ↦ bool_iff _ _ (
          kept-names p q k s d (sym same ∙ d),
          kept-names q p k (SamePlan-sym p q s) (sym same ∙ d) d,
        )
      ]

  -- What `executePlan` decides of an unordered plan, and which endpoints there are afterwards.
  abbrev pub discards_unordered : UnorderedPlan → Bool
  discards_unordered = Quot.lift Bool-set (λ p. discards S reg p.0 m) same-discards

  abbrev pub has_after : String → UnorderedPlan → Bool
  has_after k =
      Quot.lift Bool-set (λ p. has k (execute_plan S reg p.0 m).0.endpoint_db)
        (λ p q. same-names p q k)

  -- Two plans that differ in the order of their entries only are the same unordered plan: they are
  -- both discarded or neither is, the reports of their validation agree at every name, and the
  -- manager has the same endpoints afterwards. The names of each list are distinct.
  pub execute_plan_unordered :
      (p q : KeyedPlan)
      → SamePlan p q
      → ◌≡◌ {A = UnorderedPlan} (Quot.mk p) (Quot.mk q)
        × (discards S reg p.0 m ≡ discards S reg q.0 m)
        × ((k : String)
            → (lookup k (validate_plan S reg p.0 m).endpoint_plan_result
                ≡ lookup k (validate_plan S reg q.0 m).endpoint_plan_result)
              × (lookup k (validate_plan S reg p.0 m).agent_plan_result
                  ≡ lookup k (validate_plan S reg q.0 m).agent_plan_result)
              × (has k (execute_plan S reg p.0 m).0.endpoint_db
                  ≡ has k (execute_plan S reg q.0 m).0.endpoint_db))
  unfolding validate_plan
  execute_plan_unordered p q s =
      let unordered : ◌≡◌ {A = UnorderedPlan} (Quot.mk p) (Quot.mk q) = Quot.sound s in
      (
        unordered,
        ap discards_unordered unordered,
        λ k. (
          ground (
            arith,
            s.1 k,
            validate_endpoints-lookup S reg m k p.0.endpoint_list [] p.1,
            validate_endpoints-lookup S reg m k q.0.endpoint_list [] q.1,
          ),
          ground (
            arith,
            s.2 k,
            validate_agents-lookup S reg m k p.0.agent_list [] p.2,
            validate_agents-lookup S reg m k q.0.agent_list [] q.2,
          ),
          ap (has_after k) unordered,
        ),
      )
