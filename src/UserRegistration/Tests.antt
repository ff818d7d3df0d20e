-- ===== src/UserRegistration/Tests.antt =====
-- Registrations of userregistration/internal/service.go on a Cognito pool with room for one user.
use secwager.UserRegistration.Saga.{IsUserPool, IsSettled, register_user-IsSettled}
use secwager.Prelude.{
  ◌||◌, ◌&&◌, not, str_eq_iff, String, List, none, [], ◌≡◌, true, if◌then◌else◌, str_eq, inr, inl,
  arith, some, ◌∷◌, refl, Bool-cases, false, Option, Bool,
}
use secwager.UserRegistration.Service.{
  KeyService, World, username_exists, register_user, find_sub, created, DbFaults, create_failed,
  Cognito, create_user, register_created, find_user, registered,
}

abbrev one_place : Cognito (Option String)
one_place = record {
  admin_create_user = λ username email place. elim place [
    | none ↦ (created (("email", email) ∷ ("sub", "sub-1") ∷ []), some username)
    | some taken ↦ ((if str_eq taken username then username_exists else create_failed), some taken)
  ];
  admin_delete_user = λ username place. elim place [
    | none ↦ (false, none)
    | some taken ↦ if str_eq username taken then (true, none) else (false, some taken)
  ];
}

abbrev name_is : Option String → String → Bool
name_is place k = elim place [ none ↦ false | some taken ↦ str_eq k taken ]

exists_keeps :
    (username email : String) (place : Option String)
    → (one_place.admin_create_user username email place).0 ≡ username_exists
    → (k : String)
    → name_is (one_place.admin_create_user username email place).1 k ≡ name_is place k
exists_keeps username email none e k = ground (arith, e)
exists_keeps username email (some taken) e k = refl

creates :
    (username email : String) (place : Option String) (attrs : List (String × String))
    → (one_place.admin_create_user username email place).0 ≡ created attrs
    → (name_is place username ≡ false)
      × ((k : String)
          → name_is (one_place.admin_create_user username email place).1 k
            ≡ (str_eq k username || name_is place k))
creates username email none attrs e = (refl, λ k. ground arith)
creates username email (some taken) attrs e = elim (Bool-cases (str_eq taken username)) [
  | inl same ↦ ground (arith, e, same)
  | inr other ↦ ground (arith, e, other)
]

deletes :
    (username : String) (place : Option String)
    → (one_place.admin_delete_user username place).0 ≡ true
    → (k : String)
    → name_is (one_place.admin_delete_user username place).1 k
      ≡ (not (str_eq k username) && name_is place k)
deletes username none e k = ground (arith, e)
deletes username (some taken) e k = elim (Bool-cases (str_eq username taken)) [
  | inr other ↦ ground (arith, e, other)
  | inl same ↦
      let equal : username ≡ taken = (str_eq_iff username taken).0 same in
      rw (same, equal) (ground arith)
]

one_place-IsUserPool : IsUserPool one_place (λ username. username) name_is
one_place-IsUserPool = record { exists_keeps = exists_keeps; creates = creates; deletes = deletes }

abbrev keys_ok : KeyService
keys_ok = record {
  new_keypair = some (2 ∷ 7 ∷ [], 9 ∷ []);
  address_of = λ pubkey. some "bcrt1q";
  encrypt = λ privkey. some (1 ∷ privkey);
}

abbrev faults_off : DbFaults
faults_off = record { select_fails = false; insert_fails = false }

abbrev empty_world : World (Option String)
empty_world = record { users = []; cognito = none }

register_user_on_empty :
    (register_user one_place keys_ok faults_off "key" "ann" "ann@example.org" empty_world).0
    ≡ registered "sub-1" "ann" (2 ∷ 7 ∷ []) "bcrt1q"
unfolding register_user create_user register_created find_sub find_user
register_user_on_empty = refl

register_user-IsSettled_example :
    IsSettled one_place name_is empty_world "ann" "ann@example.org"
      (register_user one_place keys_ok faults_off "key" "ann" "ann@example.org" empty_world)
register_user-IsSettled_example =
    register_user-IsSettled one_place (λ username. username) name_is one_place-IsUserPool keys_ok
      faults_off "key" "ann" "ann@example.org" empty_world
