-- ===== src/Accounts/Erasure.antt =====
-- What the deletion of an account removes, and what it leaves to others.
use living_cost_manager.Prelude.{
  if◌then◌else◌, ℕ, ◌≤◌, true, false, ◌&&◌, List, ◌==◌, ◌≡◌, ◌≢◌, ◌∙◌, arith, find, any, count_if,
  delete_where, any-count, count_mono, count_none, count_disjoint, count-delete, Option-cases,
  Bool-cases, inl, inr, ltb, find-count_of, any-find, find_sound,
}
use living_cost_manager.Database.{Member, Database, is_owner_of, is_membership, has_user_id}
use living_cost_manager.Database.Tx.{ok}
use living_cost_manager.Accounts.{
  is_blocking, is_owned_by, is_contract_of, member_count, erase, erase_account,
}

-- a successful erasure found no shared workspace that the user owns
pub erase_account-result :
    (db : Database) (u : ℕ) {after : Database}
    → erase_account u db ≡ ok (tt, after)
    → (any (is_blocking db u) db.members ≡ false) × (after ≡ erase u db)
unfolding erase_account
erase_account-result db u {after} h = elim (Option-cases (find (is_contract_of u) db.contracts)) [
  | inl e ↦ (ground arith, ground arith)
  | inr (c, e) ↦ (ground arith, ground arith)
]

module _ (db : Database) (u : ℕ) (alone : any (is_blocking db u) db.members ≡ false) where
  -- a workspace that the user owns has one member
  one_member : (w : ℕ) → is_owned_by db u w ≡ true → member_count db w ≤ 1
  one_member w owned =
      let (m, e) = any-find (λ m. (m.user_id == u) && is_owner_of w m) db.members owned in
      elim (Bool-cases (ltb 1 (member_count db w))) [
        | inl many ↦ absurd (
            omega (
              arith,
              any-count (is_blocking db u) db.members alone,
              find-count_of (λ m. (m.user_id == u) && is_owner_of w m) (is_blocking db u) db.members
                  e
                  (ground (
                    arith,
                    find_sound (λ (m : Member). (m.user_id == u) && is_owner_of w m) db.members e,
                    many,
                  )),
            ))
        | inr few ↦ ground (arith, few)
      ]

  -- so a membership of another user is in none of them
  others_stay :
      (v w : ℕ) → v ≢ u → is_owned_by db u w ≡ true → count_if (is_membership w v) db.members ≡ 0
  others_stay v w ne owned =
      let (m, e) = any-find (λ m. (m.user_id == u) && is_owner_of w m) db.members owned in
      omega (
        arith,
        one_member w owned,
        find-count_of (λ m. (m.user_id == u) && is_owner_of w m)
            (λ m. (m.user_id == u) && is_owner_of w m) db.members e
            (find_sound (λ (m : Member). (m.user_id == u) && is_owner_of w m) db.members e),
        count_disjoint (is_membership w v) (λ m. (m.user_id == u) && is_owner_of w m)
            (λ m. m.workspace_id == w) db.members (λ m p. ground arith) (λ m p. ground arith)
            (λ m p. ground arith),
      )

  -- the cascade from the owned workspaces keeps the memberships of others
  cascade_keeps :
      (v w : ℕ)
      → v ≢ u
      → count_if
          (is_membership w v)
          (delete_where (λ m. is_owned_by db u m.workspace_id) db.members)
        ≡ count_if (is_membership w v) db.members
  cascade_keeps v w ne = elim (Bool-cases (is_owned_by db u w)) [
    | inl owned ↦ omega (
      arith,
      others_stay v w ne owned,
      count-delete (is_membership w v) (λ m. is_owned_by db u m.workspace_id) db.members,
    )
    | inr free ↦ omega (
      arith,
      count-delete (is_membership w v) (λ m. is_owned_by db u m.workspace_id) db.members,
      count_none (λ m. is_membership w v m && is_owned_by db u m.workspace_id) db.members
          (λ m. away m free),
    )
  ]
    where
      away :
          (m : Member)
          → is_owned_by db u w ≡ false
          → is_membership w v m && is_owned_by db u m.workspace_id ≡ false
      away m free = elim (Bool-cases (m.workspace_id == w)) [
        | inl e ↦ let same : m.workspace_id ≡ w = ground arith in rw (same, free) (ground arith)
        | inr e ↦ rw e
      ]

  delete_user_keeps :
      (v w : ℕ) (rows : List Member)
      → v ≢ u
      → count_if (is_membership w v) (delete_where (λ m. m.user_id == u) rows)
        ≡ count_if (is_membership w v) rows
  delete_user_keeps v w rows ne = omega (
    arith,
    count-delete (is_membership w v) (λ m. m.user_id == u) rows,
    count_none (λ m. is_membership w v m && (m.user_id == u)) rows (λ m. ground arith),
  )

-- After an account has been deleted, the user and all memberships of the user are gone, and every
-- other user has as many memberships of each workspace as before.
pub erase_account_only_self :
    (db : Database) (u : ℕ) {after : Database}
    → erase_account u db ≡ ok (tt, after)
    → (count_if (has_user_id u) after.users ≡ 0)
      × ((v w : ℕ)
          → count_if (is_membership w v) after.members
            ≡ (if v == u then 0 else count_if (is_membership w v) db.members))
unfolding erase
erase_account_only_self db u h =
    let (alone, e) = erase_account-result db u h in
    rw e (
      omega (
        arith,
        count-delete (has_user_id u) (has_user_id u) db.users,
        count_mono (has_user_id u) (λ r. has_user_id u r && has_user_id u r) db.users
            (λ r p. ground arith),
      ),
      λ v w. elim (Bool-cases (v == u)) [
        | inl same ↦ rw same (
            omega (
              arith,
              count-delete (is_membership w v) (λ m. m.user_id == u) (rest db),
              count_mono (is_membership w v) (λ m. is_membership w v m && (m.user_id == u))
                  (rest db) (λ m p. ground arith),
            ))
        | inr other ↦
            let ne : v ≢ u = ground (arith, other) in
            rw other (
              delete_user_keeps db u alone v w (rest db) ne
              ∙ (delete_user_keeps db u alone v w _ ne ∙ cascade_keeps db u alone v w ne))
      ],
    )
  where
    rest : Database → List Member
    rest d =
        delete_where (λ m. m.user_id == u)
          (delete_where (λ m. is_owned_by d u m.workspace_id) d.members)
