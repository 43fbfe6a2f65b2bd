-- ===== src/Users/Tests.antt =====
-- A store of users, whose passwords are their own hashes.
use vibranium_quadsquad.Base.{◌≡◌, refl}
use vibranium_quadsquad.Users.{
  StoredUser, ok, default_user, new_store, create_user, authenticate, get_by_id,
}
use vibranium_quadsquad.Users.Consistency.{
  Consistent, new_store-Consistent, create_user-Consistent, create_user-logs_in,
}
use vibranium_quadsquad.Users.Samples.{plain, two_users}

abbrev ann : StoredUser
ann = default_user "u3" "ann@plm.local" "ann" "USER" "secret" 9

create_user-Consistent_example :
    Consistent (create_user plain two_users "u3" 0 9 "ann@plm.local" "secret" "ann" "USER").1
unfolding new_store
create_user-Consistent_example =
    create_user-Consistent plain two_users "u3" 0 9 "ann@plm.local" "secret" "ann" "USER" refl
      (new_store-Consistent "admin123" "user123" 5)

create_user-logs_in_example :
    let s' = (create_user plain two_users "u3" 0 9 "ann@plm.local" "secret" "ann" "USER").1 in
    (authenticate plain s' "ann@plm.local" "secret" ≡ ok ann) × (get_by_id plain s' "u3" ≡ ok ann)
unfolding create_user new_store
create_user-logs_in_example =
    create_user-logs_in plain two_users "u3" 0 9 "ann@plm.local" "secret" "ann" "USER" ann refl
