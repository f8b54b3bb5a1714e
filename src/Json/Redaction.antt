-- ===== src/Json/Redaction.antt =====
-- `_redact_nested_contact`: the contact that a nested value holds is dropped.
use order_agent.Prelude.{
  ◌≡◌, refl, ap, Bool, true, false, ◌&&◌, String, [], ◌∷◌, List, arith, if◌then◌else◌,
}
use order_agent.Prelude.Text.{member}
use order_agent.Json.{
  Json, null, bool, number, text, arr, obj, Items, nil, cons, Fields, end, field,
}

-- SENSITIVE_STATE_KEYS
abbrev pub sensitive_state_keys : List String
sensitive_state_keys =
    "phone" ∷ "official_delivery_address" ∷ "pending_delivery_address_candidate"
    ∷ "last_address_mention" ∷ []

unfoldable pub is_sensitive : String → Bool
is_sensitive key = member key sensitive_state_keys

unfoldable mutual
  pub redact : Json → Json
  redact null = null
  redact (bool b) = bool b
  redact (number n) = number n
  redact (text t) = text t
  redact (arr items) = arr (redact_items items)
  redact (obj fields) = obj (redact_fields fields)

  pub redact_items : Items → Items
  redact_items nil = nil
  redact_items (cons j items) = cons (redact j) (redact_items items)

  pub redact_fields : Fields → Fields
  redact_fields end = end
  redact_fields (field key j fields) =
      let kept = redact j in
      field key (if is_sensitive key then null else kept) (redact_fields fields)

abbrev is_null : Json → Bool
is_null null = true
is_null _ = false

-- Whether no field with a sensitive key has a value, at any depth.
unfoldable mutual
  pub is_clean : Json → Bool
  is_clean null = true
  is_clean (bool b) = true
  is_clean (number n) = true
  is_clean (text t) = true
  is_clean (arr items) = is_clean_items items
  is_clean (obj fields) = is_clean_fields fields

  pub is_clean_items : Items → Bool
  is_clean_items nil = true
  is_clean_items (cons j items) = is_clean j && is_clean_items items

  pub is_clean_fields : Fields → Bool
  is_clean_fields end = true
  is_clean_fields (field key j fields) =
      let inside = is_clean j in
      (if is_sensitive key then is_null j else inside) && is_clean_fields fields

mutual
  unfolding redact is_clean

  clean : (j : Json) → is_clean (redact j) ≡ true
  clean null = refl
  clean (bool b) = refl
  clean (number n) = refl
  clean (text t) = refl
  clean (arr items) = clean_items items
  clean (obj fields) = clean_fields fields

  clean_items : (items : Items) → is_clean_items (redact_items items) ≡ true
  clean_items nil = refl
  clean_items (cons j items) = rw (clean j, clean_items items)

  clean_fields : (fields : Fields) → is_clean_fields (redact_fields fields) ≡ true
  clean_fields end = refl
  clean_fields (field key j fields) = ground (arith, clean j, clean_fields fields)

mutual
  unfolding redact is_clean

  same : (j : Json) → is_clean j ≡ true → redact j ≡ j
  same null h = refl
  same (bool b) h = refl
  same (number n) h = refl
  same (text t) h = refl
  same (arr items) h = ap arr (same_items items h)
  same (obj fields) h = ap obj (same_fields fields h)

  same_items : (items : Items) → is_clean_items items ≡ true → redact_items items ≡ items
  same_items nil h = refl
  same_items (cons j items) h = ground (arith, same j, same_items items)

  same_fields : (fields : Fields) → is_clean_fields fields ≡ true → redact_fields fields ≡ fields
  same_fields end h = refl
  same_fields (field key null fields) h = ground (arith, same null, same_fields fields)
  same_fields (field key j fields) h = ground (arith, same j, same_fields fields)

-- A value that holds no contact is left as it is.
pub redact_clean : (j : Json) → is_clean j ≡ true → redact j ≡ j
redact_clean j h = same j h

-- A redacted value holds no contact under a sensitive key, however deep, and redacting it again
-- changes nothing.
pub redact-is_clean : (j : Json) → (is_clean (redact j) ≡ true) × (redact (redact j) ≡ redact j)
redact-is_clean j = (clean j, same (redact j) (clean j))
