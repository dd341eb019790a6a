-- ===== src/Enrollment/Tokens.antt =====
-- internal/auth/enrollment_store.go on the rows of `enrollment_tokens`.
use arx_mdm.Prelude.{
  ℕ, suc, Bool, true, false, ◌&&◌, not, Option, none, some, List, [], ◌∷◌, Text, text_eq, any, ltb,
  ◌==◌, if◌then◌else◌,
}

pub record Token : Type 0 where
  pub id : ℕ
  pub token_hash : Text
  pub asset_id : Option ℕ
  pub expires_at : ℕ
  pub is_used : Bool
  pub used_at : Option ℕ

pub record ClaimedEnrollmentToken : Type 0 where
  pub id : ℕ
  pub asset_id : Option ℕ

abbrev pub is_claimable : ℕ → Text → Token → Bool
is_claimable now hash t = text_eq t.token_hash hash && not t.is_used && ltb now t.expires_at

-- EnrollmentTokenUnusedValid
unfoldable pub enrollment_token_unused_valid : ℕ → Text → List Token → Bool
enrollment_token_unused_valid now hash rows = any (is_claimable now hash) rows

unfoldable pub mark_used : ℕ → Text → List Token → List Token
mark_used now hash [] = []
mark_used now hash (t ∷ ts) =
    (if is_claimable now hash t then record t { is_used = true; used_at = some now } else t)
    ∷ mark_used now hash ts

unfoldable pub first_claimable : ℕ → Text → List Token → Option ClaimedEnrollmentToken
first_claimable now hash [] = none
first_claimable now hash (t ∷ ts) =
    if is_claimable now hash t
    then some (record { id = t.id; asset_id = t.asset_id })
    else first_claimable now hash ts

-- ClaimByPresentationHash: the update, and the first row that it returns; none is ErrEnrollmentTokenInvalid.
unfoldable pub claim_by_presentation_hash :
    ℕ → Text → List Token → Option ClaimedEnrollmentToken × List Token
unfolding mark_used first_claimable
claim_by_presentation_hash now hash rows = (first_claimable now hash rows, mark_used now hash rows)

abbrev pub is_held : ℕ → Token → Bool
is_held k t = t.id == k && t.is_used

unfoldable pub mark_unused : ℕ → List Token → List Token
mark_unused k [] = []
mark_unused k (t ∷ ts) =
    (if is_held k t then record t { is_used = false; used_at = none } else t) ∷ mark_unused k ts

unfoldable pub count_held : ℕ → List Token → ℕ
count_held k [] = 0
count_held k (t ∷ ts) = if is_held k t then suc (count_held k ts) else count_held k ts

-- ReleaseClaim: whether one row was updated, and the rows.
unfoldable pub release_claim : ℕ → List Token → Bool × List Token
unfolding mark_unused count_held
release_claim k rows = (count_held k rows == 1, mark_unused k rows)
