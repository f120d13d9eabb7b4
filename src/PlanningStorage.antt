-- ===== src/PlanningStorage.antt =====
-- apps/api/src/services/planning-storage.ts: stored planning is read back, or refused as corrupt.
use living_cost_manager.Prelude.{
  ℕ, Bool, true, false, ◌&&◌, Option, none, some, leb, ◌≡◌, arith, if◌then◌else◌,
}
use living_cost_manager.PlanningData.{PlanningData, max_int, parse_planning}
use living_cost_manager.Database.{PlanningState, Archive, Database}
use living_cost_manager.Database.Tx.{planning_unavailable, Tx, ok, pure, raise}

abbrev pub parsed : Option PlanningData → Option PlanningData
parsed none = none
parsed (some p) = parse_planning p

abbrev pub archive_of : ℕ → Option PlanningData → Tx (Option Archive)
archive_of revision none = raise planning_unavailable
archive_of revision (some p) = pure (some (record { revision = revision; content = p }))

unfoldable pub planning_archive : Option PlanningState → Tx (Option Archive)
unfolding parse_planning
planning_archive none = pure none
planning_archive (some row) =
    if leb 1 row.revision && leb row.revision max_int
    then archive_of row.revision (parsed row.payload)
    else raise planning_unavailable

archive_state :
    (revision : ℕ) (o : Option PlanningData) (b : Bool) (db : Database) {a : Option Archive}
    {after : Database}
    → (if b then archive_of revision o else raise planning_unavailable) db ≡ ok (a, after)
    → after ≡ db
archive_state revision none true db h = cc
archive_state revision (some p) true db h = ground arith
archive_state revision o false db h = cc

-- reading changes nothing
pub planning_archive-state :
    (row : Option PlanningState) (db : Database) {a : Option Archive} {after : Database}
    → planning_archive row db ≡ ok (a, after)
    → after ≡ db
unfolding planning_archive
planning_archive-state none db h = ground arith
planning_archive-state (some row) db h =
    archive_state row.revision (parsed row.payload) (leb 1 row.revision && leb row.revision max_int)
      db h
