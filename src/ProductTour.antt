-- ===== src/ProductTour.antt =====
-- apps/api/src/services/product-tour.ts: how far a user has come in the tour of the product. The
-- table holds version 1 only.
use living_cost_manager.Prelude.{
  ℕ, Bool, true, false, ◌||◌, Option, some, List, [], ◌∷◌, ◌++◌, ◌==◌, if◌then◌else◌, any, find,
  update_where, ◌≡◌, arith,
}

pub data TourStatus : Type 0 where
  completed skipped : TourStatus

pub record TourState : Type 0 where
  pub user_id : ℕ
  pub status : TourStatus
  pub updated_at : ℕ

abbrev same_status : TourStatus → TourStatus → Bool
same_status completed completed = true
same_status skipped skipped = true
same_status _ _ = false

abbrev is_completed : TourStatus → Bool
is_completed completed = true
is_completed skipped = false

abbrev is_of_user : ℕ → TourState → Bool
is_of_user u row = row.user_id == u

-- `none` for a tour that was not seen
unfoldable pub get_product_tour_state : ℕ → List TourState → Option TourState
get_product_tour_state u rows = find (is_of_user u) rows

-- ON CONFLICT DO UPDATE
abbrev on_conflict : TourStatus → ℕ → TourState → TourState
on_conflict status now row =
    if is_completed row.status || same_status row.status status
    then row
    else record row { status = status; updated_at = now }

unfoldable pub put_product_tour_state : ℕ → TourStatus → ℕ → List TourState → List TourState
put_product_tour_state u status now rows =
    if any (is_of_user u) rows
    then update_where (is_of_user u) (on_conflict status now) rows
    else rows ++ record { user_id = u; status = status; updated_at = now } ∷ []

update_completed :
    (u : ℕ) (status : TourStatus) (now : ℕ) (rows : List TourState) {row : TourState}
    → find (is_of_user u) rows ≡ some row
    → row.status ≡ completed
    → find (is_of_user u) (update_where (is_of_user u) (on_conflict status now) rows) ≡ some row
unfolding find update_where
update_completed u status now [] h c = absurd (ground (arith, h))
update_completed u status now (x ∷ rows) {row} h c =
    ground (arith, h, c, update_completed u status now rows {row = row})

found_any :
    (u : ℕ) (rows : List TourState) {row : TourState}
    → find (is_of_user u) rows ≡ some row
    → any (is_of_user u) rows ≡ true
unfolding find any
found_any u [] h = absurd (ground (arith, h))
found_any u (x ∷ rows) {row} h = ground (arith, h, found_any u rows {row = row})

-- a tour that was completed stays as it is, whatever is written after it
pub completed_stays :
    (u : ℕ) (status : TourStatus) (now : ℕ) (rows : List TourState) {row : TourState}
    → get_product_tour_state u rows ≡ some row
    → row.status ≡ completed
    → get_product_tour_state u (put_product_tour_state u status now rows) ≡ some row
unfolding get_product_tour_state put_product_tour_state
completed_stays u status now rows h c =
    rw (found_any u rows h) (update_completed u status now rows h c)
