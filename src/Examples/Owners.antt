-- ===== src/Examples/Owners.antt =====
-- The last owner of a ledger of the small household, and the deletion of an account.
use living_cost_manager.Prelude.{ℕ, any, count_if, ◌==◌, ◌≡◌, refl, find, if◌then◌else◌}
use living_cost_manager.Database.{has_user_id, is_membership}
use living_cost_manager.Accounts.{erase, erase_account}
use living_cost_manager.Accounts.Erasure.{erase_account_only_self}
use living_cost_manager.Examples.{shared_home}

erase_account_only_self_example :
    (count_if (has_user_id 2) (erase 2 shared_home).users ≡ 0)
    × ((v w : ℕ)
        → count_if (is_membership w v) (erase 2 shared_home).members
          ≡ (if v == 2 then 0 else count_if (is_membership w v) shared_home.members))
unfolding erase_account any find count_if
erase_account_only_self_example = erase_account_only_self shared_home 2 refl
