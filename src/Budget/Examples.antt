-- ===== src/Budget/Examples.antt =====
-- A budget manager at concrete charges, and its theorem there.
use pre_code.Common.{insert, none, ◌≡◌, refl, true, List, [], ◌∷◌, arith, lookup}
use pre_code.Budget.{
  task_key, org_key, record_cost, check_budget, BudgetManager, ensure_loaded, get_org_usage,
  get_org_budget, get_task_usage, get_task_budget, reset_usage,
}
use pre_code.Budget.Spending.{charge, Charge, charge_all, charge_all-Within, Within}

-- Nothing is spent yet, organisation "a" may spend 10, and another may spend 100.
abbrev acme : BudgetManager
acme = record {
  store = none;
  org_budgets = ("a", 10) ∷ [];
  task_budgets = [];
  usage = [];
  default_org = 100;
  default_task = 50;
  loaded = true;
}

-- The second charge is refused, and the third fits again.
abbrev charges : List Charge
charges =
    record { org_id = "a"; task_id = "t"; proposed = 8; actual = 6 }
    ∷ record { org_id = "a"; task_id = "t"; proposed = 5; actual = 5 }
    ∷ record { org_id = "a"; task_id = "u"; proposed = 4; actual = 4 }
    ∷ []

acme_spent : get_org_usage "a" (charge_all charges acme) ≡ 10
unfolding charge_all get_org_usage lookup charge check_budget get_org_budget ensure_loaded
    get_task_budget get_task_usage record_cost insert org_key task_key
acme_spent = refl

acme_reset : get_org_usage "a" (reset_usage (charge_all charges acme)) ≡ 0
unfolding reset_usage get_org_usage lookup
acme_reset = refl

acme-Within : Within acme
unfolding get_org_usage get_task_usage lookup get_org_budget
acme-Within = (λ id p. omega arith, λ id p. omega arith)

charge_all-Within_example : Within (charge_all charges acme)
charge_all-Within_example =
    charge_all-Within charges acme refl (omega arith, (omega arith, (omega arith, tt))) acme-Within
