-- ===== src/Examples/Plans.antt =====
-- The planning of the small household.
use living_cost_manager.Prelude.{
  none, Text, map, trim, true, some, [], ◌∷◌, ◌≡◌, ◌≢◌, refl, find, any, all, select, sort_on,
}
use living_cost_manager.Database.{Member, WorkspaceRole, Database, has_user_id, is_membership}
use living_cost_manager.Database.Tx.{ok}
use living_cost_manager.PlanningData.{
  PlanningData, Reserve, has_ids, parse_planning, default_planning, is_valid_planning,
}
use living_cost_manager.PlanningStorage.{planning_archive}
use living_cost_manager.Snapshot.{get_workspace_snapshot, snapshot_of}
use living_cost_manager.Planning.{
  PutPlanning, WorkspacePlanning, is_verified, authorize, store_planning, get_workspace_planning,
  put_workspace_planning, write_planning, parse_put,
}
use living_cost_manager.Planning.Revisions.{put_needs_writer, planning_lost_update, put_then_get}
use living_cost_manager.Examples.{ann, ben, both_home}

abbrev verified_home : Database
verified_home = record both_home { users = record ann { email_verified_at = some 1 } ∷ ben ∷ [] }

-- a reserve whose id is sent with a space before and after it
abbrev reserve : Text → Reserve
reserve id = record {
  id = id;
  cost_id = 99 ∷ [];
  saved_amount = none;
  target_amount = none;
  target_due_date = none;
  recorded_at = none;
  cost_label = none;
}

abbrev plan : Text → PlanningData
plan id = record default_planning { reserves = reserve id ∷ [] }

abbrev kept_plan : PlanningData
kept_plan = plan (114 ∷ [])

abbrev first_plan : PutPlanning
first_plan = record {
  expected_revision = 0;
  expected_snapshot_version = 0;
  content = plan (32 ∷ 114 ∷ 32 ∷ []);
}

abbrev answer : WorkspacePlanning
answer = record {
  workspace_id = 10;
  revision = 1;
  current_snapshot_version = 0;
  content = kept_plan;
}

abbrev planned_home : Database
planned_home = record verified_home {
  planning = record { workspace_id = 10; revision = 1; payload = some kept_plan } ∷ [];
  backups =
      record {
        id = 902;
        workspace_id = 10;
        created_at = 80;
        snapshot = record {
          workspace_id = 10;
          sync_version = 0;
          monthly_income = 0;
          categories = [];
          cards = [];
          fixed_costs = [];
        };
        planning = some (record { revision = 1; content = kept_plan });
      }
      ∷ [];
}

stored : put_workspace_planning 1 10 first_plan 902 80 verified_home ≡ ok (answer, planned_home)
unfolding put_workspace_planning write_planning parse_put parse_planning trim authorize
    store_planning planning_archive get_workspace_snapshot snapshot_of is_valid_planning find any
    all select sort_on
stored = refl

put_then_get_example :
    (answer.content ≡ record first_plan.content {
      reserves =
          map
            (λ (r : Reserve). record r { id = trim r.id; cost_id = trim r.cost_id })
            first_plan.content.reserves;
    })
    × (all has_ids answer.content.reserves ≡ true)
    × (answer.revision ≡ 1)
    × (answer.current_snapshot_version ≡ 0)
    × (get_workspace_planning 1 10 planned_home ≡ ok (answer, planned_home))
unfolding find
put_then_get_example = put_then_get 1 10 first_plan 902 80 verified_home stored 1 refl

put_needs_writer_example :
    (m : Member) × (find (is_membership 10 1) verified_home.members ≡ some m)
    × (m.role ≢ WorkspaceRole.viewer)
    × (is_verified (find (has_user_id 1) verified_home.users) ≡ true)
put_needs_writer_example = put_needs_writer 1 10 first_plan 902 80 verified_home stored

planning_lost_update_example :
    put_workspace_planning 2 10 first_plan 903 90 planned_home ≢ ok (answer, planned_home)
planning_lost_update_example =
    planning_lost_update 1 2 10 first_plan first_plan 902 80 903 90 verified_home refl stored
