-- ===== src/Examples/Budgets.antt =====
-- Budgets, schedules and new ledgers of the small household.
use living_cost_manager.Prelude.{
  ◌⊎◌, any, all, count_if, find, select, text_eq, update_where, delete_where, trim, to_lower_case,
  sort_on, length, ℕ, false, none, some, [], ◌∷◌, ◌++◌, ◌+◌, ◌*◌, ◌≡◌, ◌≤◌, refl, arith,
}
use living_cost_manager.Calendar.{
  CivilDate, civil, day_number, parse_billing_date, month_length, last_day_of_month,
}
use living_cost_manager.Database.{
  User, unreviewed, WorkspaceRole, InvitationRole, PaymentMethod, FixedCost, FixedCostDto,
  Workspace, Database, WorkspaceSnapshot,
}
use living_cost_manager.Database.Tx.{ok, err, snapshot_conflict}
use living_cost_manager.Database.Integrity.{IsSound}
use living_cost_manager.Database.Inserts.{insert_member, insert_invitation}
use living_cost_manager.Invitations.{
  normalize_email, create_workspace_invitation, prepare_invitation, accept_workspace_invitation,
  to_workspace_role,
}
use living_cost_manager.PlanningStorage.{planning_archive}
use living_cost_manager.Snapshot.{
  replace_workspace_snapshot, lock_version, merge_cost, billing_is_valid, write_budget,
  clear_budget, create_categories, create_cards, create_costs, create_backup,
  get_workspace_snapshot, snapshot_of, to_fixed_cost_dto, to_fixed_cost_create_data,
}
use living_cost_manager.Snapshot.Lock.{version_of, stale_write_refused}
use living_cost_manager.Snapshot.Writes.{replace_advances, lost_update_refused}
use living_cost_manager.Snapshot.Contents.{sent_budget, replace_returns}
use living_cost_manager.Snapshot.Costs.{dto-create_data}
use living_cost_manager.Workspaces.Requests.{parse_create, parse_name, is_valid_budget}
use living_cost_manager.Workspaces.{
  NewIds, create_user_workspace, write_workspace, fill_workspace, is_owned_role,
  assert_can_create_workspace, found_workspace, insert_workspace,
}
use living_cost_manager.Workspaces.Sound.{create_user_workspace-IsSound, free_limit}
use living_cost_manager.Predictions.{
  PredictableFixedCost, Schedule, schedule_of, next_due, occurrence, first_step,
}
use living_cost_manager.Predictions.NextDue.{IsDay, IsKnown, IsFirst, next_due-IsFirst}
use living_cost_manager.Predictions.Known.{schedule_of-IsKnown}
use living_cost_manager.Predictions.{ThirtyDayDueSummary, build_thirty_day_due_summary}
use living_cost_manager.Aggregation.{
  Summary, window_days, loop_fuel, nothing_charged, charge_loop, summarize_workspace_budget,
}
use living_cost_manager.Aggregation.Window.{charges, charge_loop_total}
use living_cost_manager.Aggregation.Agreement.{thirty_days_agree}
use living_cost_manager.System.{Reach-IsSound}
use living_cost_manager.Membership.{WorkspaceDto, MemberDto}
use living_cost_manager.Invitations.Journey.{create_then_accept}
use living_cost_manager.Examples.{
  ann_ledger, ben_ledger, both_home, invited_home, unpaid, hash_of, ben, ben_email, member,
  Reach-both,
}

abbrev rent : FixedCostDto
rent = record {
  id = 31;
  workspace_id = 10;
  name = 114 ∷ [];
  category_id = 21;
  payment_method_id = PaymentMethod.bank_transfer;
  payment_option_id = 0;
  amount = 500000;
  period_tenths = 10;
  billing_day = 31;
  is_end_of_month = false;
  billing_anchor_date = none;
  renewal_status = none;
  potential_monthly_savings = none;
  confirmed_monthly_savings = none;
}

-- `version` is the one that the client has seen
abbrev budget : ℕ → WorkspaceSnapshot
budget version = record {
  workspace_id = 10;
  sync_version = version;
  monthly_income = 3000000;
  categories =
      record { id = 22; workspace_id = 10; label = 102 ∷ [] }
      ∷ record { id = 21; workspace_id = 10; label = 104 ∷ [] }
      ∷ [];
  cards = [];
  fixed_costs = rent ∷ [];
}

stale_write_refused_example :
    replace_workspace_snapshot (budget 7) 900 50 both_home ≡ err (snapshot_conflict 0)
unfolding replace_workspace_snapshot lock_version merge_cost billing_is_valid write_budget
    clear_budget create_categories create_cards create_costs create_backup planning_archive
    get_workspace_snapshot snapshot_of to_fixed_cost_dto to_fixed_cost_create_data sort_on
    parse_billing_date any all count_if find select text_eq update_where delete_where
    normalize_email trim to_lower_case
stale_write_refused_example =
    stale_write_refused both_home (budget 7) 900 50 ann_ledger refl (omega arith) (omega arith)

abbrev stored_rent : FixedCost
stored_rent = record {
  id = 31;
  workspace_id = 10;
  name = 114 ∷ [];
  category_id = 21;
  payment_method_id = PaymentMethod.bank_transfer;
  payment_card_id = none;
  payment_option_key = none;
  amount = 500000;
  period_tenths = 10;
  billing_day = 31;
  is_end_of_month = false;
  billing_anchor_date = none;
  renewal_status = unreviewed;
  potential_monthly_savings = 0;
  confirmed_monthly_savings = 0;
}

-- after the write of `budget 0`
abbrev replaced_home : Database
replaced_home = record both_home {
  workspaces = record ann_ledger { monthly_income = 3000000; sync_version = 1 } ∷ ben_ledger ∷ [];
  categories = (budget 0).categories;
  fixed_costs = stored_rent ∷ [];
  backups =
      record {
        id = 900;
        workspace_id = 10;
        created_at = 50;
        snapshot = record (budget 1) { fixed_costs = merge_cost none rent ∷ [] };
        planning = none;
      }
      ∷ [];
}

replace_returns_example : sent_budget both_home (budget 0) ≡ sent_budget both_home (budget 0)
unfolding replace_workspace_snapshot lock_version merge_cost billing_is_valid write_budget
    clear_budget create_categories create_cards create_costs create_backup planning_archive
    get_workspace_snapshot snapshot_of to_fixed_cost_dto to_fixed_cost_create_data sort_on
    parse_billing_date any all count_if find select text_eq update_where delete_where
    normalize_email trim to_lower_case
replace_returns_example =
    replace_returns both_home (budget 0) 900 50 ann_ledger {out = sent_budget both_home (budget 0)}
      {after = replaced_home} refl (omega arith)
      (record { categories = refl; cards = refl; costs = refl }) refl

replace_advances_example :
    (ann_ledger.sync_version ≡ 0)
    × (version_of replaced_home 10
        ≡ some (record ann_ledger { monthly_income = 3000000; sync_version = 1 }))
unfolding replace_workspace_snapshot lock_version merge_cost billing_is_valid write_budget
    clear_budget create_categories create_cards create_costs create_backup planning_archive
    get_workspace_snapshot snapshot_of to_fixed_cost_dto to_fixed_cost_create_data sort_on
    parse_billing_date any all count_if find select text_eq update_where delete_where
    normalize_email trim to_lower_case
replace_advances_example =
    replace_advances both_home (budget 0) 900 50 ann_ledger {out = sent_budget both_home (budget 0)}
      {after = replaced_home} refl (omega arith) refl

lost_update_refused_example :
    replace_workspace_snapshot (record (budget 0) { monthly_income = 1 }) 901 60 replaced_home
    ≡ err (snapshot_conflict 1)
unfolding replace_workspace_snapshot lock_version merge_cost billing_is_valid write_budget
    clear_budget create_categories create_cards create_costs create_backup planning_archive
    get_workspace_snapshot snapshot_of to_fixed_cost_dto to_fixed_cost_create_data sort_on
    parse_billing_date any all count_if find select text_eq update_where delete_where
    normalize_email trim to_lower_case
lost_update_refused_example =
    lost_update_refused both_home (budget 0) (record (budget 0) { monthly_income = 1 }) 900 50 901
      60 ann_ledger {out = sent_budget both_home (budget 0)} refl (omega arith) refl refl refl

dto-create_data_example :
    to_fixed_cost_dto (to_fixed_cost_create_data (merge_cost (some stored_rent) rent))
    ≡ merge_cost (some stored_rent) rent
dto-create_data_example = dto-create_data (some stored_rent) rent

-- a third user, who owns no ledger yet
abbrev cat : User
cat = record {
  id = 3;
  email = 99 ∷ [];
  name = 99 ∷ [];
  password_hash = 9;
  token_version = 0;
  email_verified_at = none;
}

abbrev cat_home : Database
cat_home = record both_home { users = both_home.users ++ cat ∷ [] }

abbrev new_ids : NewIds
new_ids = record { workspace = 30; member = 300; backup = 901; now = 70 }

abbrev empty_budget : WorkspaceSnapshot
empty_budget = record {
  workspace_id = 0;
  sync_version = 0;
  monthly_income = 100;
  categories = [];
  cards = [];
  fixed_costs = [];
}

abbrev cat_ledger : Workspace
cat_ledger = record { id = 30; name = 99 ∷ []; monthly_income = 100; sync_version = 0 }

abbrev cat_created : Database
cat_created = record cat_home {
  workspaces = cat_home.workspaces ++ cat_ledger ∷ [];
  members = cat_home.members ++ member 300 30 3 WorkspaceRole.owner ∷ [];
  backups =
      record {
        id = 901;
        workspace_id = 30;
        created_at = 70;
        snapshot = record empty_budget { workspace_id = 30 };
        planning = none;
      }
      ∷ [];
}

free_limit_example :
    (count_if (is_owned_role 3) cat_home.members ≡ 0)
    × (count_if (is_owned_role 3) cat_created.members ≡ 1)
unfolding create_user_workspace write_workspace parse_create parse_name is_valid_budget
    assert_can_create_workspace found_workspace insert_workspace insert_member fill_workspace
    replace_workspace_snapshot lock_version merge_cost billing_is_valid write_budget clear_budget
    create_categories create_cards create_costs create_backup planning_archive
    get_workspace_snapshot snapshot_of to_fixed_cost_dto to_fixed_cost_create_data sort_on
    parse_billing_date any all count_if find select text_eq update_where delete_where
    normalize_email trim to_lower_case
free_limit_example =
    free_limit unpaid 3 (99 ∷ []) empty_budget new_ids cat_home {after = cat_created} refl refl

create_user_workspace-IsSound_example : IsSound cat_created
unfolding create_user_workspace write_workspace parse_create parse_name is_valid_budget
    assert_can_create_workspace found_workspace insert_workspace insert_member fill_workspace
    replace_workspace_snapshot lock_version merge_cost billing_is_valid write_budget clear_budget
    create_categories create_cards create_costs create_backup planning_archive
    get_workspace_snapshot snapshot_of to_fixed_cost_dto to_fixed_cost_create_data sort_on
    parse_billing_date any all count_if find select text_eq update_where delete_where
    normalize_email trim to_lower_case
create_user_workspace-IsSound_example =
    create_user_workspace-IsSound unpaid 3 (99 ∷ []) empty_budget new_ids cat_home
      (record {
        keys = sound.keys;
        owners = sound.owners;
        invitation_ids = sound.invitation_ids;
        one_pending = sound.one_pending;
      })
      refl
  where
    sound : IsSound both_home
    sound = Reach-IsSound hash_of unpaid Reach-both

-- `2024-01-31`, every month
abbrev monthly : PredictableFixedCost
monthly = record {
  id = 31;
  name = 114 ∷ [];
  category_id = 21;
  amount = 500000;
  period_tenths = 10;
  billing_day = 31;
  is_end_of_month = false;
  billing_anchor_date = some (50 ∷ 48 ∷ 50 ∷ 52 ∷ 45 ∷ 48 ∷ 49 ∷ 45 ∷ 51 ∷ 49 ∷ []);
}

abbrev every_month : Schedule
every_month = record { anchor = civil 2024 1 31; period = 1; is_end_of_month = false }

abbrev march_first : CivilDate
march_first = civil 2024 3 1

schedule_of-IsKnown_example : IsKnown every_month
unfolding schedule_of parse_billing_date
schedule_of-IsKnown_example = schedule_of-IsKnown monthly every_month refl

known : IsKnown every_month
unfolding month_length last_day_of_month
known = record {
  anchored = record { month_in = omega arith; day_in = omega arith };
  repeats = omega arith;
}

march_first-IsDay : IsDay march_first
unfolding month_length last_day_of_month
march_first-IsDay = record { month_in = omega arith; day_in = omega arith }

next_due-IsFirst_example :
    (n : ℕ) × (next_due every_month march_first ≡ occurrence every_month n)
    × IsFirst every_month march_first n
next_due-IsFirst_example = next_due-IsFirst every_month march_first known march_first-IsDay

charge_loop_total_example :
    (c : ℕ) × (charge_loop loop_fuel every_month 500000
        (day_number march_first)
        (day_number march_first + window_days)
        (first_step every_month march_first)
        nothing_charged
      ≡ some (record { due = 0 + c * 500000; occurrences = 0 + c }))
    × (charges every_month
          (day_number march_first)
          (day_number march_first + window_days)
          (3 + first_step every_month march_first)
        ≡ c)
    × (day_number march_first + window_days
        ≤ day_number (occurrence every_month (3 + first_step every_month march_first)))
    × (c ≤ 2)
charge_loop_total_example =
    charge_loop_total every_month march_first 500000 nothing_charged known march_first-IsDay

thirty_days_agree_example :
    (server : Summary ℕ) × (client : ThirtyDayDueSummary) × (summarize_workspace_budget 0
        (λ a b. a + b)
        (λ a t. a)
        (monthly ∷ [])
        march_first
      ≡ some server)
    × (build_thirty_day_due_summary (monthly ∷ []) march_first ≡ some client)
    × (server.due_occurrence_count ≡ length client.dues)
    × (server.unknown_schedule_count ≡ client.unknown_count)
    × (((server.known_schedule_count ≡ 0)
          × (1 ≤ server.unknown_schedule_count)
          × (server.thirty_day_due ≡ none))
        ⊎ (((1 ≤ server.known_schedule_count) ⊎ (server.unknown_schedule_count ≡ 0))
            × (server.thirty_day_due ≡ some client.total)))
thirty_days_agree_example =
    thirty_days_agree 0 (λ a b. a + b) (λ a t. a) march_first march_first-IsDay (monthly ∷ [])

create_then_accept_example :
    (out : WorkspaceDto × MemberDto) × (final : Database) × (accept_workspace_invitation hash_of 500
        77 ben 6 101 invited_home
      ≡ ok (out, final))
    × (out.0.id ≡ 10)
    × (out.0.role ≡ to_workspace_role InvitationRole.editor)
unfolding create_workspace_invitation prepare_invitation insert_invitation any all count_if find
    select text_eq update_where delete_where normalize_email trim to_lower_case
create_then_accept_example =
    create_then_accept hash_of both_home 10 ben_email InvitationRole.editor 1 5 5 500 77
      {after = invited_home} refl ben 6 101 refl (omega arith) refl refl refl
