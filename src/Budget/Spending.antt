-- ===== src/Budget/Spending.antt =====
-- What the checks promise of what is spent.
use pre_code.Common.{
  ℕ, ◌+◌, ◌≤◌, ◌<◌, ◌≡◌, refl, true, false, Option, none, some, List, [], ◌∷◌, String, lookup,
  lookup-insert, str_eq, str_eq_comm, if◌then◌else◌, arith, Bool-cases, inl, inr, eq_iff,
}
use pre_code.Budget.Keys.{
  org_key, task_key, org_key-task_key, org_key-injective, task_key-injective,
}
use pre_code.Budget.{
  BudgetManager, BudgetExceededError, check_budget, check_loaded, ensure_loaded, exceeds,
  record_cost, add_usage, value_or, get_org_usage, get_task_usage, get_org_budget, get_task_budget,
}

-- A charge that is checked at an estimate and, if the check lets it, recorded at its actual cost.
pub record Charge : Type 0 where
  pub org_id : String
  pub task_id : String
  pub proposed : ℕ
  pub actual : ℕ

settled : Charge → Option BudgetExceededError → BudgetManager → BudgetManager
settled c none m = record_cost c.org_id c.task_id c.actual m
settled c (some e) m = m

unfoldable pub charge : Charge → BudgetManager → BudgetManager
unfolding settled
charge c m = let (m', e) = check_budget c.org_id c.task_id c.proposed m in settled c e m'

unfoldable pub charge_all : List Charge → BudgetManager → BudgetManager
charge_all [] m = m
charge_all (c ∷ cs) m = charge_all cs (charge c m)

-- Every organisation and every task with a budget is within it.
abbrev pub Within : BudgetManager → Type 0
Within m =
    ((id : String) → 0 < get_org_budget id m → get_org_usage id m ≤ get_org_budget id m)
    × ((id : String) → 0 < get_task_budget id m → get_task_usage id m ≤ get_task_budget id m)

abbrev pub Modest : List Charge → Type 0
Modest [] = Unit
Modest (c ∷ cs) = (c.actual ≤ c.proposed) × Modest cs

pub record_cost-org_usage :
    (o t j : String) (cost : ℕ) (m : BudgetManager)
    → get_org_usage j (record_cost o t cost m)
      ≡ (if str_eq o j then get_org_usage o m + cost else get_org_usage j m)
unfolding record_cost get_org_usage
record_cost-org_usage o t j cost m =
    let paid = add_usage (org_key o) cost m.usage in
    let both = value_or 0 (lookup (task_key t) paid) + cost in
    rw
      (
        lookup-insert (task_key t) (org_key j) both paid,
        str_eq_comm (task_key t) (org_key j),
        org_key-task_key j t,
        lookup-insert (org_key o) (org_key j) (value_or 0 (lookup (org_key o) m.usage) + cost)
            m.usage,
        org_key-injective o j,
      )
      (elim (Bool-cases (str_eq o j)) [ inl is ↦ rw is refl | inr other ↦ rw other refl ])

task-add_usage :
    (o j : String) (cost : ℕ) (m : BudgetManager)
    → lookup (task_key j) (add_usage (org_key o) cost m.usage) ≡ lookup (task_key j) m.usage
task-add_usage o j cost m =
    rw
      (
        lookup-insert (org_key o) (task_key j) (value_or 0 (lookup (org_key o) m.usage) + cost)
            m.usage,
        org_key-task_key o j,
      )
      refl

pub record_cost-task_usage :
    (o t j : String) (cost : ℕ) (m : BudgetManager)
    → get_task_usage j (record_cost o t cost m)
      ≡ (if str_eq t j then get_task_usage t m + cost else get_task_usage j m)
unfolding record_cost get_task_usage
record_cost-task_usage o t j cost m =
    let paid = add_usage (org_key o) cost m.usage in
    let both = value_or 0 (lookup (task_key t) paid) + cost in
    rw
      (
        lookup-insert (task_key t) (task_key j) both paid,
        task_key-injective t j,
        task-add_usage o j cost m,
        task-add_usage o t cost m,
      )
      (elim (Bool-cases (str_eq t j)) [ inl is ↦ rw is refl | inr other ↦ rw other refl ])

-- What a passed check says of one budget.
exceeds-bound :
    (budget usage proposed actual : ℕ)
    → exceeds budget usage proposed ≡ false
    → actual ≤ proposed
    → 0 < budget
    → usage + actual ≤ budget
unfolding exceeds
exceeds-bound budget usage proposed actual h l p = ground (arith, h)

check_loaded-passes :
    (o t : String) (proposed : ℕ) (m : BudgetManager)
    → check_loaded o t proposed m ≡ none
    → (exceeds (get_org_budget o m) (get_org_usage o m) proposed ≡ false)
      × (exceeds (get_task_budget t m) (get_task_usage t m) proposed ≡ false)
unfolding check_loaded
check_loaded-passes o t proposed m h = ground (arith, h)

record_cost-Within :
    (c : Charge) (m : BudgetManager)
    → check_loaded c.org_id c.task_id c.proposed m ≡ none
    → c.actual ≤ c.proposed
    → Within m
    → Within (record_cost c.org_id c.task_id c.actual m)
unfolding record_cost get_org_budget get_task_budget
record_cost-Within c m h l w =
    let (fine, fine') = check_loaded-passes c.org_id c.task_id c.proposed m h in
    (
      λ id p.
          rw (record_cost-org_usage c.org_id c.task_id id c.actual m)
            (elim (Bool-cases (str_eq c.org_id id)) [
              | inl is ↦
                  rw (is, ← (eq_iff c.org_id id).0 is)
                    (exceeds-bound (get_org_budget c.org_id m) (get_org_usage c.org_id m) c.proposed
                      c.actual fine l (rw ((eq_iff c.org_id id).0 is) p))
              | inr other ↦ rw other (w.0 id p)
            ]),
      λ id p.
          rw (record_cost-task_usage c.org_id c.task_id id c.actual m)
            (elim (Bool-cases (str_eq c.task_id id)) [
              | inl is ↦
                  rw (is, ← (eq_iff c.task_id id).0 is)
                    (exceeds-bound (get_task_budget c.task_id m) (get_task_usage c.task_id m)
                      c.proposed c.actual fine' l (rw ((eq_iff c.task_id id).0 is) p))
              | inr other ↦ rw other (w.1 id p)
            ]),
    )

settled-Within :
    (c : Charge) (m : BudgetManager) (o : Option BudgetExceededError)
    → check_loaded c.org_id c.task_id c.proposed m ≡ o
    → m.loaded ≡ true
    → c.actual ≤ c.proposed
    → Within m
    → Within (settled c o m) × ((settled c o m).loaded ≡ true)
unfolding settled record_cost
settled-Within c m none h q l w = (record_cost-Within c m h l w, q)
settled-Within c m (some e) h q l w = (w, q)

charge-Within :
    (c : Charge) (m : BudgetManager)
    → m.loaded ≡ true
    → c.actual ≤ c.proposed
    → Within m
    → Within (charge c m) × ((charge c m).loaded ≡ true)
unfolding charge check_budget ensure_loaded
charge-Within c m q l w =
    simp q (settled-Within c m (check_loaded c.org_id c.task_id c.proposed m) refl q l w)

-- In a manager that has loaded its usage: charges that come one after the other, each checked at an
-- estimate that its actual cost does not exceed, leave every organisation and every task within its
-- budget if they were before; whichever charges the checks refuse.
pub charge_all-Within :
    (cs : List Charge) (m : BudgetManager)
    → m.loaded ≡ true
    → Modest cs
    → Within m
    → Within (charge_all cs m)
unfolding charge_all
charge_all-Within [] m q l w = w
charge_all-Within (c ∷ cs) m q l w =
    let (w', q') = charge-Within c m q l.0 w in charge_all-Within cs (charge c m) q' l.1 w'
