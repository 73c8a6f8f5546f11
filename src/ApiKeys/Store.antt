-- ===== src/ApiKeys/Store.antt =====
-- internal/sqlstore/apikeys.go: the statements on the table of the keys. A unique index refuses an
-- insertion with `row_conflict`.
use auth_all.Prelude.{
  ℕ, Bool, true, false, ◌&&◌, ◌||◌, List, ◌∷◌, none, some, Str, if◌then◌else◌, ◌==◌, str_eq, any,
  find_where, update_where, delete_where, keep_if,
}
use auth_all.Errors.{Result, ok, err, row_not_found, row_conflict, or_fail}
use auth_all.Accounts.{Db, User}
use auth_all.Principals.Types.{ApiKey}

unfoldable pub create_api_key : List ApiKey → ApiKey → Result (List ApiKey)
create_api_key keys k =
    if any (λ r. r.id == k.id || r.key_hash == k.key_hash) keys
    then err row_conflict
    else ok (k ∷ keys)

-- The join of a key and its owner.
unfoldable pub api_key_by_hash : List ApiKey → Db → Str → Result (ApiKey × User)
api_key_by_hash keys db hash = elim (find_where (λ k. k.key_hash == hash) keys) [
  | none ↦ err row_not_found
  | some k ↦ elim (find_where (λ u. u.id == k.user_id) db.users) [
    | none ↦ err row_not_found
    | some u ↦ ok (k, u)
  ]
]

unfoldable pub api_key_by_id : List ApiKey → Str → Result ApiKey
api_key_by_id keys id = or_fail (find_where (λ k. k.id == id) keys) row_not_found

-- The rows of one owner; the order of the list is left out.
unfoldable pub list_api_keys : List ApiKey → Str → List ApiKey
list_api_keys keys user = keep_if (λ k. k.user_id == user) keys

abbrev pub is_live : ApiKey → Bool
is_live k = elim k.revoked_at [ none ↦ true | some at ↦ false ]

-- `WHERE id = ? AND revoked_at IS NULL`
unfoldable pub revoke_api_key : List ApiKey → Str → Str → ℕ → Result (List ApiKey)
revoke_api_key keys id by at =
    if any (λ k. k.id == id && is_live k) keys
    then ok (
        update_where (λ k. k.id == id && is_live k)
          (λ k. record k { revoked_at = some at; revoked_by = some by }) keys)
    else err row_not_found

unfoldable pub touch_api_key : List ApiKey → Str → ℕ → List ApiKey
touch_api_key keys id at =
    update_where (λ k. k.id == id) (λ k. record k { last_used_at = some at }) keys

-- `DeleteRows` on the column `org_id`, which removes the keys of a deleted organization.
unfoldable pub delete_of_organization : List ApiKey → Str → List ApiKey
delete_of_organization keys org =
    delete_where (λ k. elim k.org_id [ none ↦ false | some o ↦ o == org ]) keys
