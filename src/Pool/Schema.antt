-- ===== src/Pool/Schema.antt =====
-- `tenantSchemaName`, on the UTF-16 units of the tenant id.
use iot_billing_backend.Common.{
  ℕ, ◌≡◌, Bool, false, ◌&&◌, ◌||◌, List, [], ◌∷◌, ◌++◌, leb, ◌==◌, if◌then◌else◌, take, refl,
}
use iot_billing_backend.Common.Result.{Result, ok, throws}

pub data SchemaError : Type 0 where
  invalid_tenant_id : SchemaError

-- [a-zA-Z0-9_]
abbrev pub is_word : ℕ → Bool
is_word c = (leb 97 c && leb c 122) || (leb 65 c && leb c 90) || (leb 48 c && leb c 57) || c == 95

-- `replace(/[^a-zA-Z0-9_]/g, '')`
unfoldable pub sanitize : List ℕ → List ℕ
sanitize [] = []
sanitize (c ∷ cs) = let rest = sanitize cs in if is_word c then c ∷ rest else rest

-- "tenant_"
abbrev pub schema_prefix : List ℕ
schema_prefix = 116 ∷ 101 ∷ 110 ∷ 97 ∷ 110 ∷ 116 ∷ 95 ∷ []

abbrev prefixed : List ℕ → Result SchemaError (List ℕ)
prefixed [] = throws invalid_tenant_id
prefixed (c ∷ cs) = ok (schema_prefix ++ c ∷ cs)

unfoldable pub tenant_schema_name : List ℕ → Result SchemaError (List ℕ)
unfolding sanitize
tenant_schema_name tenant_id = prefixed (take 48 (sanitize tenant_id))

sanitize-insert :
    (xs ys : List ℕ) (c : ℕ) → is_word c ≡ false → sanitize (xs ++ c ∷ ys) ≡ sanitize (xs ++ ys)
unfolding sanitize
sanitize-insert [] ys c h = rw (h) refl
sanitize-insert (x ∷ xs) ys c h = rw (sanitize-insert xs ys c h) refl

-- A character outside [a-zA-Z0-9_] anywhere in a tenant id makes no difference to its schema: two
-- tenants whose ids differ by it share one schema.
pub tenant_schema_name_collides :
    (xs ys : List ℕ) (c : ℕ)
    → is_word c ≡ false
    → tenant_schema_name (xs ++ c ∷ ys) ≡ tenant_schema_name (xs ++ ys)
unfolding tenant_schema_name
tenant_schema_name_collides xs ys c h = rw (sanitize-insert xs ys c h) refl
