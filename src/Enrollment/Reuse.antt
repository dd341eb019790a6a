-- ===== src/Enrollment/Reuse.antt =====
-- A token that has enrolled a device, presented again.
use arx_mdm.Prelude.{ℕ, ◌≡◌, ◌⊎◌, Bool, ◌||◌, List, [], Text, text_eq, trim_space}
use arx_mdm.Prelude.Result.{err, ok}
use arx_mdm.Enrollment.Csr.{Crypto}
use arx_mdm.Enrollment.Certificate.{Authority, Moment}
use arx_mdm.Enrollment.Tokens.{Token}
use arx_mdm.Enrollment.Service.{process_enroll, map_process_enroll_http}

module _ (k : Crypto) (a : Authority) (m : Moment) (secret csr_pem : Text) (rows : List Token) where
  abbrev is_blank : Bool
  is_blank = text_eq (trim_space secret) [] || text_eq (trim_space csr_pem) []

  -- The answer where neither field is blank.
  abbrev answered : ℕ × List Token
  answered =
      let (answer, after) = process_enroll k a m secret csr_pem rows in
      (elim answer [ err e ↦ map_process_enroll_http e | ok _ ↦ 201 ], after)

  -- Without a token to claim a request is refused.
  abbrev IsRefused : ℕ × List Token → Type 0
  IsRefused (status, after) = ((status ≡ 400) ⊎ (status ≡ 401)) × (after ≡ rows)
