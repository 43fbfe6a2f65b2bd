-- ===== src/Users/Consistency.antt =====
-- The three maps of the store agree, and what follows for a login.
use vibranium_quadsquad.Base.{
  ℕ, ◌≡◌, ◌≢◌, refl, sym, ap, subst, String, true, none, some, [], arith, lookup, lookup-insert,
  eq_iff, str_eq, ◌⊎◌, inl, inr, Bool-cases, Option-cases,
}
use vibranium_quadsquad.Auth.{role_admin}
use vibranium_quadsquad.Users.{
  StoredUser, Passwords, Store, Error, Result, ok, err, panics, email_exists, username_exists,
  hash_failed, put, default_user, new_store, create_user, authenticate, get_by_id,
}

pub record Consistent (s : Store) : Type 0 where
  pub email_user :
      (k id : String)
      → lookup k s.by_email ≡ some id
      → (u : StoredUser) × (lookup id s.users ≡ some u) × (u.email ≡ k)
  pub name_user :
      (k id : String)
      → lookup k s.by_name ≡ some id
      → (u : StoredUser) × (lookup id s.users ≡ some u) × (u.username ≡ k)
  pub user_indexed :
      (id : String) (u : StoredUser)
      → lookup id s.users ≡ some u
      → (u.id ≡ id)
        × (lookup u.email s.by_email ≡ some id)
        × (lookup u.username s.by_name ≡ some id)

-- Adding a user whose id, email and name are new keeps the maps in agreement.
put-Consistent :
    (s : Store) (u : StoredUser)
    → Consistent s
    → lookup u.id s.users ≡ none
    → lookup u.email s.by_email ≡ none
    → lookup u.username s.by_name ≡ none
    → Consistent (put s u)
put-Consistent s u c hi he hn = record {
  email_user = λ k id h. elim (Bool-cases (str_eq u.email k)) [
    | inl same ↦ (
      u,
      ground (
        arith,
        lookup-insert u.id id u s.users,
        lookup-insert u.email k u.id s.by_email,
        eq_iff u.id id,
      ),
      (eq_iff u.email k).0 same,
    )
    | inr other ↦
        let (v, held, e) =
          c.email_user k id (ground (arith, lookup-insert u.email k u.id s.by_email)) in
        (
          v,
          ground (
            arith,
            lookup-insert u.id id u s.users,
            eq_iff u.id id,
            held,
            ap (λ z. lookup z s.users) {x = u.id} {y = id},
          ),
          e,
        )
  ];
  name_user = λ k id h. elim (Bool-cases (str_eq u.username k)) [
    | inl same ↦ (
      u,
      ground (
        arith,
        lookup-insert u.id id u s.users,
        lookup-insert u.username k u.id s.by_name,
        eq_iff u.id id,
      ),
      (eq_iff u.username k).0 same,
    )
    | inr other ↦
        let (v, held, e) =
          c.name_user k id (ground (arith, lookup-insert u.username k u.id s.by_name)) in
        (
          v,
          ground (
            arith,
            lookup-insert u.id id u s.users,
            eq_iff u.id id,
            held,
            ap (λ z. lookup z s.users) {x = u.id} {y = id},
          ),
          e,
        )
  ];
  user_indexed = λ id v h. elim (Bool-cases (str_eq u.id id)) [
    | inl same ↦
        let e : v ≡ u = ground (arith, lookup-insert u.id id u s.users) in
        subst
          (λ (w : StoredUser).
            (w.id ≡ id)
            × (lookup w.email (put s u).by_email ≡ some id)
            × (lookup w.username (put s u).by_name ≡ some id))
          (sym e)
          (
            (eq_iff u.id id).0 same,
            ground (
              arith,
              lookup-insert u.email u.email u.id s.by_email,
              eq_iff u.email u.email,
              eq_iff u.id id,
            ),
            ground (
              arith,
              lookup-insert u.username u.username u.id s.by_name,
              eq_iff u.username u.username,
              eq_iff u.id id,
            ),
          )
    | inr other ↦
        let (own, by_e, by_n) =
          c.user_indexed id v (ground (arith, lookup-insert u.id id u s.users)) in
        (
          own,
          ground (
            arith,
            lookup-insert u.email v.email u.id s.by_email,
            eq_iff u.email v.email,
            by_e,
            ap (λ z. lookup z s.by_email) {x = u.email} {y = v.email},
          ),
          ground (
            arith,
            lookup-insert u.username v.username u.id s.by_name,
            eq_iff u.username v.username,
            by_n,
            ap (λ z. lookup z s.by_name) {x = u.username} {y = v.username},
          ),
        )
  ];
}

empty-Consistent : Consistent (record { users = []; by_email = []; by_name = [] })
empty-Consistent = record {
  email_user = λ k id h. absurd (ground arith);
  name_user = λ k id h. absurd (ground arith);
  user_indexed = λ id u h. absurd (ground arith);
}

-- The store with its two default users is consistent.
pub new_store-Consistent : (a u : String) (now : ℕ) → Consistent (new_store a u now)
unfolding new_store
new_store-Consistent a u now =
    let admin : StoredUser =
      default_user "admin-default-001" "admin@plm.local" "admin" role_admin a now in
    let first : Store = put (record { users = []; by_email = []; by_name = [] }) admin in
    put-Consistent first (default_user "user-default-001" "user@plm.local" "user" "USER" u now)
      (put-Consistent (record { users = []; by_email = []; by_name = [] }) admin empty-Consistent
        refl refl refl)
      refl refl refl

module _ (p : Passwords) where
  -- What a call of `create_user` comes to.
  pub create_user-cases :
      (s : Store) (id : String) (salt now : ℕ) (email password username role : String)
      → ((x : Error) × (create_user p s id salt now email password username role ≡ (err x, s)))
        ⊎ ((h : String) × (lookup email s.by_email ≡ none)
            × (lookup username s.by_name ≡ none)
            × (p.hash password salt ≡ some h)
            × (create_user p s id salt now email password username role ≡ (
              ok (default_user id email username role h now),
              put s (default_user id email username role h now),
            )))
  unfolding create_user
  create_user-cases s id salt now email password username role =
      elim (Option-cases (lookup email s.by_email)) [
        | inr (j, e) ↦ inl (email_exists, ground (arith, e))
        | inl e ↦ elim (Option-cases (lookup username s.by_name)) [
          | inr (j, n) ↦ inl (username_exists, ground (arith, e, n))
          | inl n ↦ elim (Option-cases (p.hash password salt)) [
            | inl h ↦ inl (hash_failed, ground (arith, e, n, h))
            | inr (h, k) ↦ inr (h, e, n, k, ground (arith, e, n, k))
          ]
        ]
      ]

  -- Creating a user under an id that is not in use keeps the store consistent, also when it fails.
  pub create_user-Consistent :
      (s : Store) (id : String) (salt now : ℕ) (email password username role : String)
      → lookup id s.users ≡ none
      → Consistent s
      → Consistent (create_user p s id salt now email password username role).1
  create_user-Consistent s id salt now email password username role new c =
      elim (create_user-cases s id salt now email password username role) [
        | inl (x, e) ↦ subst (λ (r : Result StoredUser × Store). Consistent r.1) (sym e) c
        | inr (h, no_email, no_name, _, e) ↦
            subst (λ (r : Result StoredUser × Store). Consistent r.1) (sym e)
              (put-Consistent s (default_user id email username role h now) c new no_email no_name)
      ]

  -- In a consistent store a login never meets a missing user.
  authenticate-safe :
      (s : Store) (email password : String)
      → Consistent s
      → authenticate p s email password ≢ err panics
  unfolding authenticate
  authenticate-safe s email password c e = elim (Option-cases (lookup email s.by_email)) [
    | inl n ↦ ground arith
    | inr (id, h) ↦ let (u, held, _) = c.email_user email id h in ground (arith, held)
  ]

  LogsIn : Store → String → String → StoredUser → Type 0
  LogsIn s email password u = (authenticate p s email password ≡ ok u) × (get_by_id p s u.id ≡ ok u)

  put-LogsIn :
      (s : Store) (u : StoredUser) (password : String) (salt : ℕ)
      → u.is_active ≡ true
      → p.hash password salt ≡ some u.password_hash
      → LogsIn (put s u) u.email password u
  unfolding authenticate get_by_id LogsIn
  put-LogsIn s u password salt active k =
      let by_e : lookup u.email (put s u).by_email ≡ some u.id =
        ground (arith, lookup-insert u.email u.email u.id s.by_email, eq_iff u.email u.email) in
      let held : lookup u.id (put s u).users ≡ some u =
        ground (arith, lookup-insert u.id u.id u s.users, eq_iff u.id u.id) in
      (
        ground (arith, by_e, held, p.verify-hash password salt u.password_hash k),
        ground (arith, held),
      )

  -- A user who was just created logs in with the email and the password given, and is found by id:
  -- both give the user that `create_user` returned.
  pub create_user-logs_in :
      (s : Store) (id : String) (salt now : ℕ) (email password username role : String)
      (u : StoredUser)
      → (create_user p s id salt now email password username role).0 ≡ ok u
      → let s' = (create_user p s id salt now email password username role).1 in
        (authenticate p s' email password ≡ ok u) × (get_by_id p s' id ≡ ok u)
  unfolding LogsIn
  create_user-logs_in s id salt now email password username role u made =
      elim (create_user-cases s id salt now email password username role) [
        | inl (x, e) ↦ absurd (ground (arith, ap (λ r. r.0) e))
        | inr (h, _, _, k, e) ↦
            let d = default_user id email username role h now in
            let same : d ≡ u = ground (arith, ap (λ r. r.0) e) in
            subst
              (λ (r : Result StoredUser × Store).
                (authenticate p r.1 email password ≡ ok u) × (get_by_id p r.1 id ≡ ok u))
              (sym e)
              (subst
                (λ (v : StoredUser).
                  (authenticate p (put s d) email password ≡ ok v)
                  × (get_by_id p (put s d) id ≡ ok v))
                same (put-LogsIn s d password salt refl k))
      ]
