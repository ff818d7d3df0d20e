-- ===== src/UserRegistration/Saga.antt =====
-- What a registration of userregistration/internal/service.go leaves behind.
use secwager.Prelude.{
  ◌⊎◌, ◌&&◌, not, true, Bool, str_eq_iff, ◌∙◌, String, ◌≡◌, none, str_eq, any, false, some, List,
  refl, ap, inl, inr, Bool-cases, Option-cases, ◌∷◌, [], ◌||◌, arith, str_eq_refl,
}
use secwager.UserRegistration.Service.{
  Code, roll_back, Cognito, World, RegisterReply, username_exists, register_user, register_created,
  refused, KeyService, get_user, create_failed, created, DbFaults, registered, find_user, found,
  find_sub, UserRow, collides, create_user, CreateReply,
}

-- What the registration relies on in Cognito, `has c k` for "a user of the pool has the name k" and
-- `canon` for how the pool writes names, in lower case or as they are: a username that is said to exist
-- is not created; one that is created was not there, and is now; one whose deletion succeeds is gone.
-- Nothing is said of calls that fail.
pub record IsUserPool {C : Type 0} (aws : Cognito C) (canon : String → String)
    (has : C → String → Bool) : Type 0 where
  pub exists_keeps :
      (username email : String) (c : C)
      → (aws.admin_create_user username email c).0 ≡ username_exists
      → (k : String) → has (aws.admin_create_user username email c).1 k ≡ has c k
  pub creates :
      (username email : String) (c : C) (attrs : List (String × String))
      → (aws.admin_create_user username email c).0 ≡ created attrs
      → (has c (canon username) ≡ false)
        × ((k : String)
            → has (aws.admin_create_user username email c).1 k
              ≡ (str_eq k (canon username) || has c k))
  pub deletes :
      (username : String) (c : C)
      → (aws.admin_delete_user username c).0 ≡ true
      → (k : String)
      → has (aws.admin_delete_user username c).1 k ≡ (not (str_eq k (canon username)) && has c k)

module _ {C : Type 0} (aws : Cognito C) (has : C → String → Bool) where
  -- The three ways in which a refused registration may leave something in the pool: the creation failed
  -- in a way that does not tell what it did; the new user came without a `sub`; the deletion failed.
  abbrev pub IsStranded : (username email : String) → (before after : C) → Type 0
  IsStranded username email c c' =
      let (reply, c1) = aws.admin_create_user username email c in
      ((reply ≡ create_failed) × (c' ≡ c1))
      ⊎ ((attrs : List (String × String)) × (reply ≡ created attrs)
          × (find_sub attrs ≡ none)
          × (c' ≡ c1))
      ⊎ ((attrs : List (String × String)) × (reply ≡ created attrs)
          × ((aws.admin_delete_user username c1).0 ≡ false)
          × (c' ≡ (aws.admin_delete_user username c1).1))

  -- Where a registration ends: refused, with the users as they were, and the names of the pool too, but
  -- for the three ways above; or with one more row, under a username and an id that no row had, which is
  -- what `GetUser` finds, and the id is the `sub` of the user that the pool has created.
  abbrev pub IsSettled : World C → (username email : String) → RegisterReply × World C → Type 0
  IsSettled w username email (refused code, w') =
      (w'.users ≡ w.users)
      × (((k : String) → has w'.cognito k ≡ has w.cognito k)
          ⊎ IsStranded username email w.cognito w'.cognito)
  IsSettled w username email (registered user_id name pubkey addr, w') =
      (name ≡ username)
      × (get_user false username w'.users ≡ found user_id username pubkey addr)
      × (find_user username w.users ≡ none)
      × (any (λ r. str_eq r.user_id user_id) w.users ≡ false)
      × (w'.cognito ≡ (aws.admin_create_user username email w.cognito).1)
      × ((attrs : List (String × String)) × ((aws.admin_create_user username email w.cognito).0
            ≡ created attrs)
          × (find_sub attrs ≡ some user_id))

no_such_id :
    (row : UserRow) (rows : List UserRow)
    → any (collides row) rows ≡ false
    → any (λ r. str_eq r.user_id row.user_id) rows ≡ false
no_such_id row [] apart = refl
no_such_id row (r ∷ rows) apart = elim (Bool-cases (any (collides row) rows)) [
  | inl some_do ↦ ground (arith, apart, some_do)
  | inr none_do ↦ ground (arith, no_such_id row rows none_do)
]

module _ {C : Type 0} (aws : Cognito C) (canon : String → String) (has : C → String → Bool)
    (pool : IsUserPool aws canon has) where
  deleted_again :
      (username email : String) (c : C) (attrs : List (String × String))
      → (aws.admin_create_user username email c).0 ≡ created attrs
      → (aws.admin_delete_user username (aws.admin_create_user username email c).1).0 ≡ true
      → (k : String)
      → has (aws.admin_delete_user username (aws.admin_create_user username email c).1).1 k
        ≡ has c k
  deleted_again username email c attrs new gone k =
      let (absent, names) = pool.creates username email c attrs new in
      let left = pool.deletes username (aws.admin_create_user username email c).1 gone k in
      elim (Bool-cases (str_eq k (canon username))) [
        | inr other ↦ ground (arith, names k, left, other)
        | inl same ↦
            let here : has c k ≡ false =
              ap (has c) ((str_eq_iff k (canon username)).0 same) ∙ absent in
            ground (arith, left, same, here)
      ]

  roll_back-IsSettled :
      (username email : String) (code : Code) (attrs : List (String × String)) (w : World C)
      → (aws.admin_create_user username email w.cognito).0 ≡ created attrs
      → IsSettled aws has w username email (
          roll_back aws username code
            (record w { cognito = (aws.admin_create_user username email w.cognito).1 }))
  roll_back-IsSettled username email code attrs w new =
      let c1 = (aws.admin_create_user username email w.cognito).1 in
      elim (Bool-cases (aws.admin_delete_user username c1).0) [
        | inl gone ↦ (refl, inl (deleted_again username email w.cognito attrs new gone))
        | inr still ↦ (refl, inr (inr (inr (attrs, new, still, refl))))
      ]

  register_created-IsSettled :
      (keys : KeyService) (faults : DbFaults) (kms_key_id username sub email : String)
      (attrs : List (String × String)) (w : World C)
      → str_eq username "" ≡ false
      → find_user username w.users ≡ none
      → (aws.admin_create_user username email w.cognito).0 ≡ created attrs
      → find_sub attrs ≡ some sub
      → IsSettled aws has w username email (
          register_created aws keys faults kms_key_id username sub
            (record w { cognito = (aws.admin_create_user username email w.cognito).1 }))
  unfolding register_created get_user find_user
  register_created-IsSettled keys faults kms_key_id username sub email attrs w named absent new is =
      let back = roll_back-IsSettled username email Code.internal attrs w new in
      elim (Option-cases keys.new_keypair) [
        | inl gone ↦ rw gone back
        | inr ((pubkey, privkey), pair) ↦ elim (Option-cases (keys.address_of pubkey)) [
          | inl gone ↦ rw (pair, gone) back
          | inr (addr, address) ↦ elim (Option-cases (keys.encrypt privkey)) [
            | inl gone ↦ rw (pair, address, gone) back
            | inr (encrypted, locked) ↦
                let row : UserRow = record {
                  user_id = sub;
                  username = username;
                  btc_pubkey = pubkey;
                  btc_addr = addr;
                  encrypted_privkey = encrypted;
                  kms_key_id = kms_key_id;
                } in
                elim (Bool-cases faults.insert_fails) [
                  | inl fails ↦ rw (pair, address, locked, fails) back
                  | inr fine ↦ elim (Bool-cases (any (collides row) w.users)) [
                    | inl some_do ↦
                        rw (pair, address, locked, fine, some_do)
                          (roll_back-IsSettled username email Code.already_exists attrs w new)
                    | inr apart ↦
                        rw (pair, address, locked, fine, apart)
                          (
                            refl,
                            rw (named, str_eq_refl username) refl,
                            absent,
                            no_such_id row w.users apart,
                            refl,
                            (attrs, new, is),
                          )
                  ]
                ]
          ]
        ]
      ]

  reply-IsSettled :
      (keys : KeyService) (faults : DbFaults) (kms_key_id username email : String) (w : World C)
      (reply : CreateReply)
      → str_eq username "" || str_eq email "" ≡ false
      → faults.select_fails ≡ false
      → find_user username w.users ≡ none
      → (aws.admin_create_user username email w.cognito).0 ≡ reply
      → IsSettled aws has w username email
          (register_user aws keys faults kms_key_id username email w)
  unfolding register_user create_user
  reply-IsSettled keys faults kms_key_id username email w username_exists both fine absent eq =
      rw (both, fine, absent, eq) (refl, inl (pool.exists_keeps username email w.cognito eq))
  reply-IsSettled keys faults kms_key_id username email w create_failed both fine absent eq =
      rw (both, fine, absent, eq) (refl, inr (inl (eq, refl)))
  reply-IsSettled keys faults kms_key_id username email w (created attrs) both fine absent eq =
      elim (Option-cases (find_sub attrs)) [
        | inl lost ↦
            rw (both, fine, absent, eq, lost) (refl, inr (inr (inl (attrs, eq, lost, refl))))
        | inr (sub, has_sub) ↦
            rw (both, fine, absent, eq, has_sub)
              (register_created-IsSettled keys faults kms_key_id username sub email attrs w
                (ground (arith, both)) absent eq has_sub)
      ]

  -- In a user pool in which a username said to exist is not created, a created one was not there before
  -- and is now, and a successful deletion takes the name away: a registration that is refused leaves the
  -- users as they were, and the names in the pool too, unless the creation failed for another reason than
  -- an existing username, the created user came without a `sub`, or the deletion that is to undo the
  -- creation failed; the pool is then as that last call left it. A registration that succeeds adds a row
  -- under a username and an id that no row had, the id is the `sub` of the created user, and `GetUser`
  -- answers with it. Which statements fail is arbitrary; one that fails has had no effect.
  pub register_user-IsSettled :
      (keys : KeyService) (faults : DbFaults) (kms_key_id username email : String) (w : World C)
      → IsSettled aws has w username email
          (register_user aws keys faults kms_key_id username email w)
  unfolding register_user
  register_user-IsSettled keys faults kms_key_id username email w =
      elim (Bool-cases (str_eq username "" || str_eq email "")) [
        | inl unnamed ↦ rw unnamed (refl, inl (λ k. refl))
        | inr both ↦ elim (Bool-cases faults.select_fails) [
          | inl fails ↦ rw (both, fails) (refl, inl (λ k. refl))
          | inr fine ↦ elim (Option-cases (find_user username w.users)) [
            | inr (r, there) ↦ rw (both, fine, there) (refl, inl (λ k. refl))
            | inl absent ↦
                reply-IsSettled keys faults kms_key_id username email w
                  (aws.admin_create_user username email w.cognito).0 both fine absent refl
          ]
        ]
      ]
