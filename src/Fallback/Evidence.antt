-- ===== src/Fallback/Evidence.antt =====
-- What in the user's own words backs a proposal of the language model.
use Prim.Native.Char.{Char, code}
use text.Mathlib.Text.{starts_with}
use order_agent.Prelude.{
  ℕ, zero, suc, ◌-◌, Bool, false, not, ◌&&◌, ◌||◌, String, Option, none, some, List, [], ◌∷◌, ◌++◌,
  any, map, if◌then◌else◌,
}
use order_agent.Prelude.Text.{str_eq, member, is_in, is_space_code, chars, unique}
use order_agent.State.{OrderItem, SessionState}
use order_agent.Menu.{
  Menu, stands_in, has_text, available_items, find_item_by_name, matching_names_for_item,
}

-- EXPLICIT_CONFIRM_WORDS
abbrev explicit_confirm_words : List String
explicit_confirm_words = "确认" ∷ "下单" ∷ "提交订单" ∷ "就这样" ∷ "就这些" ∷ "可以下单" ∷ []

-- EXPLICIT_CANCEL_WORDS
abbrev explicit_cancel_words : List String
explicit_cancel_words = "取消" ∷ "算了" ∷ "不要了" ∷ "不点了" ∷ "先不要" ∷ []

-- EXPLICIT_DELIVERY_REQUESTS
abbrev explicit_delivery_requests : List String
explicit_delivery_requests = "我要配送" ∷ "选择配送" ∷ "帮我配送" ∷ "送过来" ∷ "配送" ∷ "外卖" ∷ "改成配送" ∷ []

-- EXPLICIT_PICKUP_REQUESTS
abbrev explicit_pickup_requests : List String
explicit_pickup_requests = "我要自取" ∷ "选择自取" ∷ "到店自取" ∷ "我自己取" ∷ "自取" ∷ "到店取" ∷ "改成自取" ∷ []

-- REFERENCE_INDEXES
abbrev reference_indexes : List (String × ℕ)
reference_indexes =
    ("第一个", 0)
    ∷ ("第1个", 0)
    ∷ ("一", 0)
    ∷ ("1", 0)
    ∷ ("第二个", 1)
    ∷ ("第2个", 1)
    ∷ ("二", 1)
    ∷ ("2", 1)
    ∷ ("第三个", 2)
    ∷ ("第3个", 2)
    ∷ ("三", 2)
    ∷ ("3", 2)
    ∷ []

-- GENERIC_REFERENCE_TOKENS
abbrev generic_reference_tokens : List String
generic_reference_tokens = "这个" ∷ "那个" ∷ "刚才那个" ∷ "就这个" ∷ "就那个" ∷ "要这个" ∷ "要那个" ∷ "来这个" ∷ "来那个" ∷ []

-- ADDRESS_PLACE_SUFFIXES
abbrev address_place_suffixes : List String
address_place_suffixes =
    "店" ∷ "饭店" ∷ "餐厅" ∷ "饭堂" ∷ "楼" ∷ "楼上" ∷ "楼下" ∷ "旁边" ∷ "附近" ∷ "门口" ∷ "对面" ∷ []

-- The characters that `_compact` drops.
abbrev dropped_marks : String
dropped_marks = "，,。！？!?；;、：:\"'“”‘’（）()【】[].…-"

is_dropped : Char → Bool
is_dropped c = is_space_code (code c) || is_in (String.◌∷◌ c "") dropped_marks

-- `_compact`
unfoldable pub compact : String → String
unfolding is_dropped
compact String.[] = ""
compact (String.◌∷◌ c s) = let rest = compact s in if is_dropped c then rest else String.◌∷◌ c rest

-- `_has_explicit_confirm`
unfoldable pub has_explicit_confirm : String → Bool
has_explicit_confirm message = any (stands_in message) explicit_confirm_words

-- `_has_explicit_cancel`
unfoldable pub has_explicit_cancel : String → Bool
has_explicit_cancel message = any (stands_in message) explicit_cancel_words

-- `_has_explicit_fulfillment_request` for "delivery"
unfoldable pub has_explicit_delivery_request : String → Bool
unfolding compact
has_explicit_delivery_request message = member (compact message) explicit_delivery_requests

-- `_has_explicit_fulfillment_request` for "pickup"
unfoldable pub has_explicit_pickup_request : String → Bool
unfolding compact
has_explicit_pickup_request message = member (compact message) explicit_pickup_requests

-- The text after its first characters.
abbrev drop_chars : ℕ → String → String
drop_chars zero s = s
drop_chars (suc n) String.[] = ""
drop_chars (suc n) (String.◌∷◌ c s) = drop_chars n s

-- `_is_embedded_in_address_place`, of the text after the name: no suffix is longer than four
-- characters.
abbrev is_embedded_in_address_place : String → Bool
is_embedded_in_address_place tail = any (starts_with tail) address_place_suffixes

-- Whether the name begins the text and no place name goes on from there.
abbrev begins_with_evidence : String → String → Bool
begins_with_evidence text name =
    starts_with text name && not (is_embedded_in_address_place (drop_chars (chars name) text))

-- `_contains_menu_evidence`: the loop over the places where a name that is not empty stands.
unfoldable pub contains_menu_evidence : String → String → Bool
contains_menu_evidence String.[] name = begins_with_evidence "" name
contains_menu_evidence (String.◌∷◌ c s) name =
    begins_with_evidence (String.◌∷◌ c s) name || contains_menu_evidence s name

-- The code that the evidence is read with: `normalize` is the normalized text of
-- `normalize_ordering_voice_transcript` with the menu's names and the session, and `ordinal` the
-- number that the expression of `normalize_recommendation_ordinal_reference` matches, from 1 to 9.
pub record Reader : Type 0 where
  pub normalize : List String → SessionState → String → String
  pub ordinal : String → Option ℕ

abbrev mentions_name : String → String → String → Bool
mentions_name text normalized name =
    has_text name && (contains_menu_evidence text name || contains_menu_evidence normalized name)

-- `_mentions_item`
unfoldable pub mentions_item : String → String → String → Menu → Bool
unfolding contains_menu_evidence compact find_item_by_name matching_names_for_item
mentions_item text normalized target menu = elim (find_item_by_name menu target) [
  | none ↦ false
  | some item ↦
      any (mentions_name text normalized) (map compact (matching_names_for_item menu item.name))
]

-- `last_recommendations[index].get("name") == target`, false out of range.
abbrev is_recommended : String → ℕ → List String → Bool
is_recommended target index [] = false
is_recommended target zero (name ∷ names) = str_eq name target
is_recommended target (suc index) (name ∷ names) = is_recommended target index names

abbrev index_of : String → List (String × ℕ) → Option ℕ
index_of text [] = none
index_of text (e ∷ es) = if str_eq text e.0 then some e.1 else index_of text es

abbrev only_name : List String → List String
only_name (name ∷ []) = name ∷ []
only_name _ = []

abbrev name_of : OrderItem → String
name_of item = item.name

abbrev only_given : List String → List String
only_given [] = []
only_given (name ∷ names) = if has_text name then name ∷ only_given names else only_given names

-- `unique_candidates`
unfoldable pub unique_candidates : SessionState → List String
unique_candidates state = unique (
    elim state.last_mentioned_item [
      | none ↦ []
      | some name ↦ if has_text name then name ∷ [] else []
    ]
    ++ (only_given (only_name state.last_recommendations)
        ++ only_given (only_name (map name_of state.current_order))))

abbrev is_only : String → List String → Bool
is_only target (name ∷ []) = str_eq name target
is_only target _ = false

module _ (reader : Reader) where
  -- `_has_unique_reference_to_item`; the number that an ordinal names counts from 1.
  unfoldable pub has_unique_reference_to_item : String → String → SessionState → Bool
  unfolding unique_candidates
  has_unique_reference_to_item text target state = elim (reader.ordinal text) [
    | some number ↦ is_recommended target (number - 1) state.last_recommendations
    | none ↦ elim (index_of text reference_indexes) [
      | some index ↦ is_recommended target index state.last_recommendations
      | none ↦
          any (stands_in text) generic_reference_tokens && is_only target (unique_candidates state)
    ]
  ]

  -- `_has_add_item_evidence`
  unfoldable pub has_add_item_evidence : String → String → Menu → SessionState → Bool
  unfolding mentions_item has_unique_reference_to_item compact
  has_add_item_evidence message target menu state =
      let text = compact message in
      let names = map (λ item. item.name) (available_items menu) in
      mentions_item text (compact (reader.normalize names state message)) target menu
      || has_unique_reference_to_item text target state
