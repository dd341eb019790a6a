-- ===== src/Access/Roles.antt =====
-- internal/auth/users.go: the roles, their order, and the principal in a session token.
use arx_mdm.Prelude.{
  ℕ, Bool, ◌&&◌, Option, none, some, Text, text_eq, bytes, [], leb, ltb, if◌then◌else◌, trim_space,
  to_lower,
}

pub data Role : Type 0 where
  admin operator viewer : Role

-- ParseRole
unfoldable pub parse_role : Text → Option Role
parse_role s =
    let r = to_lower (trim_space s) in
    if text_eq r (bytes "admin")
    then some admin
    else if text_eq r (bytes "operator")
    then some operator
    else if text_eq r (bytes "viewer")
    then some viewer
    else none

abbrev pub rank : Role → ℕ
rank admin = 3
rank operator = 2
rank viewer = 1

-- RoleRank
unfoldable pub role_rank : Text → ℕ
unfolding parse_role
role_rank s = elim (parse_role s) [ none ↦ 0 | some r ↦ rank r ]

-- HasAtLeast
unfoldable pub has_at_least : Text → Text → Bool
unfolding role_rank
has_at_least role min_role =
    let a = role_rank role in let b = role_rank min_role in ltb 0 a && ltb 0 b && leb b a

-- The names that ParseRole returns.
abbrev pub role_name : Role → Text
role_name admin = bytes "admin"
role_name operator = bytes "operator"
role_name viewer = bytes "viewer"

-- Principal; the id 0 is uuid.Nil.
pub record Principal : Type 0 where
  pub user_id : ℕ
  pub username : Text
  pub role : Text

-- arxClaims of a token whose signature and times are good, with the subject as uuid.Parse reads it.
pub record Claims : Type 0 where
  pub subject : Text
  pub username : Text
  pub role : Text

-- JWTService.Parse; `verify` is jwt.ParseWithClaims with the service's key, `uuid` is uuid.Parse.
module _ (verify : Text → Option Claims) (uuid : Text → Option ℕ) where
  unfoldable pub parse_token : Text → Option Principal
  unfolding parse_role
  parse_token token = elim (verify (trim_space token)) [
    | none ↦ none
    | some claims ↦ elim (uuid (trim_space claims.subject)) [
      | none ↦ none
      | some uid ↦ elim (parse_role claims.role) [
        | none ↦ none
        | some r ↦
            if text_eq (trim_space claims.username) []
            then none
            else some (record {
              user_id = uid;
              username = trim_space claims.username;
              role = role_name r;
            })
      ]
    ]
  ]
