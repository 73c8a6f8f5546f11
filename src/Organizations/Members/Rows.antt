-- ===== src/Organizations/Members/Rows.antt =====
-- The rows of the members table under the updates of one row: who stays an active owner.
use auth_all.Prelude.{
  ◌≡◌, refl, ◌∙◌, Bool, true, false, ◌&&◌, not, List, [], ◌∷◌, some, Str, arith, str_beq,
  str_beq_iff, str_beq_refl, any, find_where, update_where, delete_where, any-update_where,
  any-delete_where, nat_beq, ◌==◌, str_eq,
}
use auth_all.Organizations.Store.{Membership, active, of_user, active_with_role, user_ids}
use auth_all.Organizations.Members.{count_others}

-- No two rows have one organization and one user.
unfoldable pub unique_members : List Membership → Bool
unique_members [] = true
unique_members (m ∷ ms) = not (any (of_user m.org_id m.user_id) ms) && unique_members ms

-- An active member of the role other than the user.
abbrev pub other_with_role : Str → Str → Str → Membership → Bool
other_with_role org role user m = active_with_role org role m && not (m.user_id == user)

-- The new role and status of one row.
abbrev pub set_row : Str → Str → Membership → Membership
set_row role status r = record r { role = role; status = status }

pub count_others-any :
    (org role user : Str) (ms : List Membership)
    → nat_beq (count_others user (user_ids (active_with_role org role) ms)) 0
      ≡ not (any (other_with_role org role user) ms)
unfolding count_others user_ids
count_others-any org role user [] = refl
count_others-any org role user (m ∷ ms) = ground (arith, count_others-any org role user ms)

any-other :
    (org role user : Str) (ms : List Membership)
    → any (other_with_role org role user) ms ≡ true
    → any (active_with_role org role) ms ≡ true
any-other org role user [] h = ground arith
any-other org role user (m ∷ ms) h = ground (arith, any-other org role user ms)

other-not-of_user :
    (org role user : Str) (m : Membership)
    → other_with_role org role user m ≡ true
    → of_user org user m ≡ false
other-not-of_user org role user m h = ground arith

module _ (org user : Str) where
  pub other-update :
      (role : Str) (f : Membership → Membership) (ms : List Membership)
      → any (other_with_role org role user) ms ≡ true
      → any (active_with_role org role) (update_where (of_user org user) f ms) ≡ true
  other-update role f ms h = any-other org role user _ (
      any-update_where (of_user org user) (other_with_role org role user) f ms
        (other-not-of_user org role user) h)

  pub other-delete :
      (role : Str) (ms : List Membership)
      → any (other_with_role org role user) ms ≡ true
      → any (active_with_role org role) (delete_where (of_user org user) ms) ≡ true
  other-delete role ms h = any-other org role user _ (
      any-delete_where (of_user org user) (other_with_role org role user) ms
        (other-not-of_user org role user)
      ∙ h)

  no-row-other :
      (role : Str) (ms : List Membership)
      → any (of_user org user) ms ≡ false
      → any (active_with_role org role) ms ≡ true
      → any (other_with_role org role user) ms ≡ true
  no-row-other role [] n h = h
  no-row-other role (m ∷ ms) n h = ground (arith, no-row-other role ms)

  -- If the user's only row is no active owner, an active owner is another user.
  pub row-other :
      (role : Str) (ms : List Membership) (m : Membership)
      → unique_members ms ≡ true
      → find_where (of_user org user) ms ≡ some m
      → active_with_role org role m ≡ false
      → any (active_with_role org role) ms ≡ true
      → any (other_with_role org role user) ms ≡ true
  unfolding find_where unique_members
  row-other role [] m u f n h = h
  row-other role (x ∷ ms) m u f n h = ground (
    arith,
    row-other role ms m,
    no-row-other role ms,
    str_beq_iff x.org_id org,
    str_beq_iff x.user_id user,
  )

  -- The row that is made an active owner is one.
  pub made-owner :
      (role status : Str) (ms : List Membership)
      → any (of_user org user) ms ≡ true
      → str_beq status active ≡ true
      → any (active_with_role org role) (update_where (of_user org user) (set_row role status) ms)
        ≡ true
  unfolding update_where
  made-owner role status [] h a = h
  made-owner role status (m ∷ ms) h a = ground (arith, made-owner role status ms, str_beq_refl role)

  -- A member of another organization is not met.
  pub other_org-of_user :
      (org' role : Str) (m : Membership)
      → str_beq org org' ≡ false
      → active_with_role org' role m ≡ true
      → of_user org user m ≡ false
  other_org-of_user org' role m n h =
      ground (arith, str_beq_iff m.org_id org', str_beq_iff m.org_id org, str_beq_iff org org')

  any-of_user-update :
      (org' user' role status : Str) (ms : List Membership)
      → any (of_user org' user') (update_where (of_user org user) (set_row role status) ms)
        ≡ any (of_user org' user') ms
  unfolding update_where
  any-of_user-update org' user' role status [] = refl
  any-of_user-update org' user' role status (m ∷ ms) =
      ground (arith, any-of_user-update org' user' role status ms)

  pub update_unique :
      (role status : Str) (ms : List Membership)
      → unique_members ms ≡ true
      → unique_members (update_where (of_user org user) (set_row role status) ms) ≡ true
  unfolding unique_members update_where
  update_unique role status [] h = refl
  update_unique role status (m ∷ ms) h =
      ground
        (arith, update_unique role status ms, any-of_user-update m.org_id m.user_id role status ms)

any-delete_le :
    (p q : Membership → Bool) (ms : List Membership)
    → any q ms ≡ false
    → any q (delete_where p ms) ≡ false
unfolding delete_where
any-delete_le p q [] h = h
any-delete_le p q (m ∷ ms) h = ground (arith, any-delete_le p q ms)

pub delete_unique :
    (p : Membership → Bool) (ms : List Membership)
    → unique_members ms ≡ true
    → unique_members (delete_where p ms) ≡ true
unfolding unique_members delete_where
delete_unique p [] h = refl
delete_unique p (m ∷ ms) h =
    ground (arith, delete_unique p ms, any-delete_le p (of_user m.org_id m.user_id) ms)
