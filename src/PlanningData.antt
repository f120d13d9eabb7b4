-- ===== src/PlanningData.antt =====
-- packages/shared/src/planning.ts: the shared planning data of a workspace and its validation.
-- A value here has the shape of the schema. Parsing it trims the ids, and asks what
-- `is_valid_planning` asks of the trimmed value.
use living_cost_manager.Prelude.{
  ℕ, ◌+◌, ◌%◌, Bool, true, false, not, ◌&&◌, ◌||◌, Option, none, some, List, [], ◌∷◌, Text, ◌==◌,
  leb, any, all, length, if◌then◌else◌, text_eq, trim, trim_idem, map, refl, sym, ap, ◌∙◌, ◌≡◌,
  arith,
}
use living_cost_manager.Calendar.{CivilDate, civil, day_number, is_real, match_date}

abbrev pub max_int : ℕ
max_int = 2147483647

pub record Week : Type 0 where
  pub week_start : Text
  pub budget_amount : Option ℕ
  pub spent_amount : Option ℕ
  pub recorded_at : Option ℕ

pub record Reserve : Type 0 where
  pub id : Text
  pub cost_id : Text
  pub saved_amount : Option ℕ
  pub target_amount : Option ℕ
  pub target_due_date : Option Text
  pub recorded_at : Option ℕ
  pub cost_label : Option Text

pub record PlanningData : Type 0 where
  pub payday_day : Option ℕ
  pub week_start_day : ℕ
  pub weeks : List Week
  pub reserves : List Reserve

abbrev is_none {ℓ} : {A : Type ℓ} → Option A → Bool
is_none none = true
is_none (some a) = false

abbrev or_absent {ℓ} : {A : Type ℓ} → (A → Bool) → Option A → Bool
or_absent p none = true
or_absent p (some a) = p a

-- `planningDateSchema`: a real date of a year other than 0000
unfoldable pub planning_date : Text → Option CivilDate
unfolding match_date is_real
planning_date text = elim (match_date text) [
  | none ↦ none
  | some d ↦ if leb 1 d.year && is_real d then some d else none
]

abbrev is_planning_date : Text → Bool
is_planning_date text = not (is_none (planning_date text))

-- Monday is 1 and Sunday 7: `getUTCDay() || 7`
unfoldable pub iso_weekday : CivilDate → ℕ
unfolding day_number
iso_weekday d = let day = (day_number d + 5) % 7 in if day == 0 then 7 else day

abbrev last_week_start : CivilDate
last_week_start = civil 9999 12 25

abbrev is_week_start : ℕ → Text → Bool
is_week_start weekday text = elim (planning_date text) [
  | none ↦ false
  | some d ↦ leb (day_number d) (day_number last_week_start) && iso_weekday d == weekday
]

abbrev is_amount : Option ℕ → Bool
is_amount = or_absent (λ n. leb n max_int)

abbrev same_bool : Bool → Bool → Bool
same_bool true b = b
same_bool false b = not b

is_week : ℕ → Week → Bool
is_week weekday w =
    is_week_start weekday w.week_start
    && ((is_amount w.budget_amount && is_amount w.spent_amount)
        && same_bool (is_none w.spent_amount) (is_none w.recorded_at))

-- `id`: the bounds of a text that is trimmed
abbrev is_id : Text → Bool
is_id s = leb 1 (length s) && leb (length s) 200

is_reserve : Reserve → Bool
is_reserve r =
    (is_id r.id && is_id r.cost_id)
    && ((is_amount r.saved_amount && is_amount r.target_amount)
        && (or_absent is_planning_date r.target_due_date
            && (or_absent (λ s. leb (length s) 120) r.cost_label
                && ((is_none r.saved_amount
                      && (is_none r.target_amount && is_none r.target_due_date))
                    || not (is_none r.recorded_at)))))

-- `new Set(keys).size === keys.length`
no_repeat {ℓ} : {A : Type ℓ} → (A → Text) → List A → Bool
no_repeat key [] = true
no_repeat key (x ∷ xs) =
    let rest = no_repeat key xs in if any (λ y. text_eq (key x) (key y)) xs then false else rest

unfoldable pub is_valid_planning : PlanningData → Bool
unfolding is_week is_reserve no_repeat planning_date iso_weekday
is_valid_planning p =
    or_absent (λ d. leb 1 d && leb d 31) p.payday_day
    && ((leb 1 p.week_start_day && leb p.week_start_day 7)
        && ((leb (length p.weeks) 520 && leb (length p.reserves) 1000)
            && ((all (is_week p.week_start_day) p.weeks && all is_reserve p.reserves)
                && (no_repeat (λ (w : Week). w.week_start) p.weeks
                    && (no_repeat (λ (r : Reserve). r.id) p.reserves
                        && no_repeat (λ (r : Reserve). r.cost_id) p.reserves)))))

abbrev trimmed_reserve : Reserve → Reserve
trimmed_reserve r = record r { id = trim r.id; cost_id = trim r.cost_id }

-- the value that the schema passes on: `z.string().trim()` for the ids
abbrev pub trimmed : PlanningData → PlanningData
trimmed p = record p { reserves = map trimmed_reserve p.reserves }

abbrev pub valid_or_none : Bool → PlanningData → Option PlanningData
valid_or_none true p = some p
valid_or_none false p = none

-- `workspacePlanningDataSchema.safeParse`
unfoldable pub parse_planning : PlanningData → Option PlanningData
unfolding is_valid_planning
parse_planning p = valid_or_none (is_valid_planning (trimmed p)) (trimmed p)

abbrev pub default_planning : PlanningData
default_planning = record { payday_day = none; week_start_day = 1; weeks = []; reserves = [] }

trimmed_reserves_idem :
    (rows : List Reserve)
    → map trimmed_reserve (map trimmed_reserve rows) ≡ map trimmed_reserve rows
trimmed_reserves_idem [] = refl
trimmed_reserves_idem (r ∷ rows) =
    rw (trim_idem r.id, trim_idem r.cost_id, trimmed_reserves_idem rows) refl

pub valid_or_none-some :
    (b : Bool) (p : PlanningData) {q : PlanningData}
    → valid_or_none b p ≡ some q
    → (b ≡ true) × (q ≡ p)
valid_or_none-some true p h = (refl, ground arith)
valid_or_none-some false p h = cc

-- A parsed value is parsed as it stands.
pub parse_planning_idem :
    (p : PlanningData) {q : PlanningData} → parse_planning p ≡ some q → parse_planning q ≡ some q
unfolding parse_planning
parse_planning_idem p {q} h =
    let (valid, same) = valid_or_none-some (is_valid_planning (trimmed p)) (trimmed p) h in
    let again : trimmed q ≡ q =
      ap trimmed same
      ∙ ap (λ rows. record p { reserves = rows }) (trimmed_reserves_idem p.reserves)
      ∙ sym same in
    let holds : is_valid_planning q ≡ true = ap is_valid_planning same ∙ valid in
    ap (λ r. valid_or_none (is_valid_planning r) r) again ∙ ap (λ b. valid_or_none b q) holds

-- the ids that a stored planning has
abbrev pub has_ids : Reserve → Bool
has_ids r =
    (leb 1 (length r.id) && leb (length r.id) 200)
    && (leb 1 (length r.cost_id) && leb (length r.cost_id) 200)

reserves-has_ids : (rows : List Reserve) → all is_reserve rows ≡ true → all has_ids rows ≡ true
unfolding all is_reserve
reserves-has_ids [] h = refl
reserves-has_ids (r ∷ rows) h = ground (arith, reserves-has_ids rows)

-- A planning that is parsed has trimmed ids, of 1 to 200 characters each.
pub parse_planning-trimmed :
    (p : PlanningData) {q : PlanningData}
    → parse_planning p ≡ some q
    → (q ≡ trimmed p) × (all has_ids q.reserves ≡ true)
unfolding parse_planning is_valid_planning
parse_planning-trimmed p {q} h =
    let (valid, same) = valid_or_none-some (is_valid_planning (trimmed p)) (trimmed p) h in
    (same, rw same (reserves-has_ids (map trimmed_reserve p.reserves) (ground (arith, valid))))
