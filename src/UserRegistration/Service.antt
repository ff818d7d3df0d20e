-- ===== src/UserRegistration/Service.antt =====
-- `UserRegistrationService` of userregistration/internal/service.go, with `CognitoUserManager` of
-- userregistration/internal/cognito.go. AWS Cognito, the key encryption and the Bitcoin library are
-- parameters; a byte string is the list of its bytes.
use secwager.Prelude.{
  ℕ, some, ◌∷◌, inr, any, inl, ◌⊎◌, none, if◌then◌else◌, List, Option, String, [], str_eq, Bool,
  ◌||◌,
}

abbrev pub Bytes : Type 0
Bytes = List ℕ

-- A row of `users`: the id and the username are unique.
pub record UserRow : Type 0 where
  pub user_id : String
  pub username : String
  pub btc_pubkey : Bytes
  pub btc_addr : String
  pub encrypted_privkey : Bytes
  pub kms_key_id : String

-- The answer of Cognito's `AdminCreateUser`: the attributes of the new user, by name.
pub data CreateReply : Type 0 where
  username_exists create_failed : CreateReply
  created : List (String × String) → CreateReply

-- Cognito, on a state of its own; `admin_delete_user` says whether it succeeded.
pub record Cognito (C : Type 0) : Type 0 where
  pub admin_create_user : (username email : String) → C → CreateReply × C
  pub admin_delete_user : String → C → Bool × C

-- What one request gets from the Bitcoin library and from KMS.
pub record KeyService : Type 0 where
  pub new_keypair : Option (Bytes × Bytes)
  pub address_of : Bytes → Option String
  pub encrypt : Bytes → Option Bytes

-- The statements that fail, or that Postgres refuses for another reason than a unique constraint, such
-- as a text that is too long for its column. They have then had no effect.
pub record DbFaults : Type 0 where
  pub select_fails : Bool
  pub insert_fails : Bool

pub data UserError : Type 0 where
  already_exists not_found plain : UserError

pub data Code : Type 0 where
  invalid_argument already_exists not_found internal : Code

pub data RegisterReply : Type 0 where
  registered :
      (user_id username : String) → (btc_pubkey : Bytes) → (btc_addr : String) → RegisterReply
  refused : Code → RegisterReply

pub record World (C : Type 0) : Type 0 where
  pub users : List UserRow
  pub cognito : C

abbrev pub to_grpc_error : UserError → Code
to_grpc_error UserError.already_exists = Code.already_exists
to_grpc_error UserError.not_found = Code.not_found
to_grpc_error UserError.plain = Code.internal

unfoldable pub find_sub : List (String × String) → Option String
find_sub [] = none
find_sub ((name, value) ∷ attrs) = if str_eq name "sub" then some value else find_sub attrs

unfoldable pub find_user : String → List UserRow → Option UserRow
find_user username [] = none
find_user username (r ∷ rows) =
    if str_eq r.username username then some r else find_user username rows

-- A row with the same id or the same username: the unique constraints.
abbrev pub collides : UserRow → UserRow → Bool
collides new r = str_eq r.user_id new.user_id || str_eq r.username new.username

module _ {C : Type 0} (aws : Cognito C) where
  -- `CreateUser`: the new user's `sub`.
  unfoldable pub create_user : (username email : String) → C → (UserError ⊎ String) × C
  unfolding find_sub
  create_user username email c = (
    elim (aws.admin_create_user username email c).0 [
      | username_exists ↦ inl UserError.already_exists
      | create_failed ↦ inl UserError.plain
      | created attrs ↦ elim (find_sub attrs) [ none ↦ inl UserError.plain | some sub ↦ inr sub ]
    ],
    (aws.admin_create_user username email c).1,
  )

  -- The deferred rollback: an error of the deletion is only logged.
  abbrev pub roll_back : String → Code → World C → RegisterReply × World C
  roll_back username code w =
      (refused code, record w { cognito = (aws.admin_delete_user username w.cognito).1 })

  -- What follows the creation of the Cognito user `sub`.
  unfoldable pub register_created :
      KeyService → DbFaults → (kms_key_id username sub : String) → World C → RegisterReply × World C
  register_created keys faults kms_key_id username sub w = elim keys.new_keypair [
    | none ↦ roll_back username Code.internal w
    | some (pubkey, privkey) ↦ elim (keys.address_of pubkey) [
      | none ↦ roll_back username Code.internal w
      | some addr ↦ elim (keys.encrypt privkey) [
        | none ↦ roll_back username Code.internal w
        | some encrypted ↦
            let row : UserRow = record {
              user_id = sub;
              username = username;
              btc_pubkey = pubkey;
              btc_addr = addr;
              encrypted_privkey = encrypted;
              kms_key_id = kms_key_id;
            } in
            if faults.insert_fails
            then roll_back username Code.internal w
            else if any (collides row) w.users
            then roll_back username Code.already_exists w
            else (registered sub username pubkey addr, record w { users = row ∷ w.users })
      ]
    ]
  ]

  unfoldable pub register_user :
      KeyService
      → DbFaults
      → (kms_key_id username email : String) → World C
      → RegisterReply × World C
  unfolding create_user find_user register_created
  register_user keys faults kms_key_id username email w =
      if str_eq username "" || str_eq email ""
      then (refused Code.invalid_argument, w)
      else if faults.select_fails
      then (refused Code.internal, w)
      else elim (find_user username w.users) [
        | some _ ↦ (refused Code.already_exists, w)
        | none ↦
            let w' : World C = record w { cognito = (create_user username email w.cognito).1 } in
            elim (create_user username email w.cognito).0 [
              | inl e ↦ (refused (to_grpc_error e), w')
              | inr sub ↦ register_created keys faults kms_key_id username sub w'
            ]
      ]

-- `GetUser`
pub data UserReply : Type 0 where
  found : (user_id username : String) → (btc_pubkey : Bytes) → (btc_addr : String) → UserReply
  not_given : Code → UserReply

unfoldable pub get_user : Bool → String → List UserRow → UserReply
unfolding find_user
get_user select_fails username users =
    if str_eq username ""
    then not_given Code.invalid_argument
    else if select_fails
    then not_given Code.internal
    else elim (find_user username users) [
      | none ↦ not_given Code.not_found
      | some r ↦ found r.user_id r.username r.btc_pubkey r.btc_addr
    ]
