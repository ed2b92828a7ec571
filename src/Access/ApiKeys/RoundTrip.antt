-- ===== src/Access/ApiKeys/RoundTrip.antt =====
-- The key that the creation of a service identity returns is a key of that identity.
use iam_access_control_servi.Prelude.{
  String, ◌≡◌, ◌≢◌, refl, Bool, true, Option, some, eq_iff, arith,
}
use text.Mathlib.TextLemmas.{append-nil, cons-append, nil-append}
use iam_access_control_servi.Domain.Models.{ServiceIdentity}
use iam_access_control_servi.Access.Texts.{IsFree, split_first, split_first-append}
use iam_access_control_servi.Access.ApiKeys.{
  api_key, check_parts, key_parts, principal_of, validate_api_key,
}

api_key_split :
    (identity : ServiceIdentity) (secret : String)
    → IsFree b'.' identity.id
    → split_first b'.' (api_key identity secret) ≡ some (identity.id, secret)
unfolding api_key
api_key_split identity secret free =
    rw (append-nil secret, cons-append "." "" secret, nil-append secret)
      (split_first-append b'.' "." identity.id secret refl free)

-- The parts of a key are the id and the secret that it was made of.
pub key_parts-api_key :
    (identity : ServiceIdentity) (secret : String)
    → IsFree b'.' identity.id
    → identity.id ≢ ""
    → secret ≢ ""
    → key_parts (api_key identity secret) ≡ some (identity.id, secret)
unfolding key_parts api_key
key_parts-api_key identity secret free named filled =
    rw (api_key_split identity secret free, key_parts)
      (ground (arith, eq_iff identity.id "", eq_iff secret ""))

-- The key of an enabled identity that can be found by its id, with the secret that its hash was
-- made of, gives the principal of that identity.
pub validate_api_key-api_key :
    (find_identity : String → Option ServiceIdentity) (compare : String → String → Bool)
    (identity : ServiceIdentity) (secret : String)
    → IsFree b'.' identity.id
    → identity.id ≢ ""
    → secret ≢ ""
    → find_identity identity.id ≡ some identity
    → identity.enabled ≡ true
    → compare secret identity.api_key_hash ≡ true
    → validate_api_key find_identity compare (api_key identity secret)
      ≡ some (principal_of identity)
unfolding validate_api_key
validate_api_key-api_key find_identity compare identity secret free named filled found on right =
    rw (key_parts-api_key identity secret free named filled, validate_api_key)
      (rw (found, check_parts) (rw (on, right) refl))
