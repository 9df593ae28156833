-- ===== src/Idempotency/Key.antt =====
-- core/idempotency/idempotency-hash.util.ts, and which requests the interceptor takes part in.
use expentra.Prelude.{
  ℕ, String, Bool, true, false, Option, none, some, ◌&&◌, is_some, truthy_id, same_text, ◌<>◌,
  if◌then◌else◌, ◌≡◌, refl, ap, ◌∙◌, arith,
}
use expentra.Policy.Json.{Json, null, obj, Fields, end, field}

-- `intercept` goes past a route that is not marked and a caller without an identifier.
unfoldable pub takes_part : Bool → Option ℕ → Bool
takes_part enabled user_id = enabled && is_some (truthy_id user_id)

-- `<` on strings, `JSON.stringify` and the digest of SHA-256 in hexadecimal.
pub record HashRuntime : Type 0 where
  pub before : String → String → Bool
  pub stringify : Json → String
  pub sha256_hex : String → String

-- `<` on strings is a strict order in which every two strings that differ are comparable.
pub record IsStrictOrder (rt : HashRuntime) : Type 0 where
  pub one_way : (s t : String) → rt.before s t ≡ true → rt.before t s ≡ false
  pub through :
      (r s t : String) → rt.before r s ≡ true → rt.before s t ≡ true → rt.before r t ≡ true
  pub compares :
      (s t : String) → rt.before s t ≡ false → rt.before t s ≡ false → same_text s t ≡ true

module _ (rt : HashRuntime) where
  unfoldable pub insert_field : String → Json → Fields → Fields
  insert_field key value end = field key value end
  insert_field key value (field k v fs) =
      let rest = insert_field key value fs in
      if rt.before k key then field k v rest else field key value (field k v fs)

  -- `Object.keys(record).sort().reduce(…)`
  unfoldable pub sort_fields : Fields → Fields
  unfolding insert_field
  sort_fields end = end
  sort_fields (field k v fs) = insert_field k v (sort_fields fs)

  unfoldable pub stable_stringify : Option Json → String
  unfolding sort_fields
  stable_stringify none = ""
  stable_stringify (some null) = ""
  stable_stringify (some (obj fs)) = rt.stringify (obj (sort_fields fs))
  stable_stringify (some value) = rt.stringify value

  unfoldable pub hash_request_body : Option Json → String
  unfolding stable_stringify
  hash_request_body body = rt.sha256_hex (stable_stringify body)

  unfoldable pub build_idempotency_storage_key : String → Option Json → String
  unfolding hash_request_body
  build_idempotency_storage_key idempotency_key body =
      idempotency_key <> ":" <> hash_request_body body

-- The same fields in another order, under keys that differ.
pub data Reordered : Fields → Fields → Type 0 where
  nothing : Reordered end end
  keep :
      {fs gs : Fields} (k : String) (v : Json)
      → Reordered fs gs
      → Reordered (field k v fs) (field k v gs)
  swap :
      {fs : Fields} (j k : String) (v w : Json)
      → same_text j k ≡ false
      → Reordered (field j v (field k w fs)) (field k w (field j v fs))
  both : {fs gs hs : Fields} → Reordered fs gs → Reordered gs hs → Reordered fs hs

module _ (rt : HashRuntime) (order : IsStrictOrder rt) where
  open order use {one_way, through, compares}

  insert_field-swap :
      (j k : String) (v w : Json) (fs : Fields)
      → same_text j k ≡ false
      → insert_field rt j v (insert_field rt k w fs) ≡ insert_field rt k w (insert_field rt j v fs)
  unfolding insert_field
  insert_field-swap j k v w end other = ground (arith, one_way j k, compares j k)
  insert_field-swap j k v w (field l x fs) other = ground (
    arith,
    insert_field-swap j k v w fs other,
    one_way j k,
    compares j k,
    through j k l,
    through k j l,
    through l j k,
    through l k j,
    one_way l j,
    one_way l k,
    one_way j l,
    one_way k l,
  )

  sort_fields-Reordered : {fs gs : Fields} → Reordered fs gs → sort_fields rt fs ≡ sort_fields rt gs
  unfolding sort_fields
  sort_fields-Reordered nothing = refl
  sort_fields-Reordered (keep k v r) = ap (insert_field rt k v) (sort_fields-Reordered r)
  sort_fields-Reordered (swap {fs} j k v w other) =
      insert_field-swap j k v w (sort_fields rt fs) other
  sort_fields-Reordered (both r q) = sort_fields-Reordered r ∙ sort_fields-Reordered q

  -- Where `<` on strings is a strict order in which strings that differ are comparable, two bodies
  -- that are objects with the same fields, under keys that differ, in another order have the same
  -- storage key.
  pub build_idempotency_storage_key-Reordered :
      {fs gs : Fields} (idempotency_key : String)
      → Reordered fs gs
      → build_idempotency_storage_key rt idempotency_key (some (obj fs))
        ≡ build_idempotency_storage_key rt idempotency_key (some (obj gs))
  unfolding build_idempotency_storage_key hash_request_body stable_stringify
  build_idempotency_storage_key-Reordered idempotency_key r =
      ap (λ fs. idempotency_key <> ":" <> rt.sha256_hex (rt.stringify (obj fs)))
        (sort_fields-Reordered r)
