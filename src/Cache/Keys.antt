-- ===== src/Cache/Keys.antt =====
-- src/common/cache/cache.keys.ts: the keys, the prefixes and the times to live.
use iam_access_control_servi.Prelude.{ℕ, String, ◌≡◌, refl, [], ◌∷◌, concat}
use text.Mathlib.TextLemmas.{append-nil, append_assoc}

abbrev pub permissions_ttl_ms : ℕ
permissions_ttl_ms = 30000

abbrev pub policies_ttl_ms : ℕ
policies_ttl_ms = 30000

unfoldable pub permissions_key : String → String → String
permissions_key tenant_id user_id = concat ("perms:" ∷ tenant_id ∷ ":" ∷ user_id ∷ [])

unfoldable pub permissions_tenant_prefix : String → String
permissions_tenant_prefix tenant_id = concat ("perms:" ∷ tenant_id ∷ ":" ∷ [])

unfoldable pub policies_key : String → String → String → String
policies_key tenant_id action resource_type =
    concat ("pol:" ∷ tenant_id ∷ ":" ∷ action ∷ ":" ∷ resource_type ∷ [])

unfoldable pub policies_tenant_prefix : String → String
policies_tenant_prefix tenant_id = concat ("pol:" ∷ tenant_id ∷ ":" ∷ [])

-- The keys of the policies do not tell their parts apart: an action that ends in a colon and a
-- word has the key of the action without it on a resource type that begins with that word.
pub policies_key_collides :
    (tenant_id action word resource_type : String)
    → policies_key tenant_id (concat (action ∷ ":" ∷ word ∷ [])) resource_type
      ≡ policies_key tenant_id action (concat (word ∷ ":" ∷ resource_type ∷ []))
unfolding policies_key
policies_key_collides tenant_id action word resource_type = simp (append_assoc, append-nil) refl
