-- ===== src/Snapshot/Costs.antt =====
-- A cost that is written is read back as it was.
use living_cost_manager.Prelude.{Option, ◌≡◌, arith}
use living_cost_manager.Database.{FixedCost, FixedCostDto}
use living_cost_manager.Snapshot.{to_fixed_cost_dto, to_fixed_cost_create_data, merge_cost}

-- Writing a merged cost to its row and reading it back gives the cost: the option of the payment
-- goes through the two columns, and an empty one through null.
pub dto-create_data :
    (old : Option FixedCost) (c : FixedCostDto)
    → to_fixed_cost_dto (to_fixed_cost_create_data (merge_cost old c)) ≡ merge_cost old c
unfolding to_fixed_cost_dto to_fixed_cost_create_data merge_cost
dto-create_data old c = ground arith
