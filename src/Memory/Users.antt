-- ===== src/Memory/Users.antt =====
-- `Store`: user accounts, keyed by their name in lower case.
use kasirinaja.Prelude.{
  true, ◌||◌, String, List, lookup, insert, values, is_some, str_eq, str_lt, sort_by, trim_space,
  to_lower, if◌then◌else◌,
}
use kasirinaja.Domain.{Env, or_now, UserAccount}
use kasirinaja.Store.{
  not_found, invalid_transaction, Action, gets, or_raise, raise_if, modify, ◌>>=◌, ◌>>◌,
}
use kasirinaja.Memory.State.{Store}

module _ {F : Type 0} where
  unfoldable pub create_user : Env → UserAccount → Action (Store F) (Unit {0})
  unfolding or_now
  create_user env request = do
    let username = to_lower (trim_space request.username)
    raise_if (str_eq username "" || str_eq (trim_space request.password) "") invalid_transaction
    known ← gets (λ s. lookup username s.users_by_username)
    raise_if (is_some known) invalid_transaction
    let user = record request {
      username = username;
      role = if str_eq request.role "" then "cashier" else request.role;
      created_at = or_now env 0 request.created_at;
      active = true;
    }
    modify λ s. record s { users_by_username = insert username user s.users_by_username }

  unfoldable pub list_users : Action (Store F) (List UserAccount)
  list_users =
      gets (λ s. sort_by (λ a b. str_lt a.username b.username) (values s.users_by_username))

  unfoldable pub update_user_password : String → String → Action (Store F) (Unit {0})
  update_user_password name password = do
    let username = to_lower (trim_space name)
    raise_if (str_eq username "" || str_eq (trim_space password) "") invalid_transaction
    user ← or_raise (← gets (λ s. lookup username s.users_by_username)) not_found
    modify λ s. record s {
      users_by_username = insert username (record user { password = password }) s.users_by_username;
    }
