-- ===== src/Fallback/Options.antt =====
-- The options that an answer of the language model gives for a dish.
use order_agent.Prelude.{
  ◌≡◌, ◌⊎◌, refl, sym, inl, inr, String, Option, some, List, [], ◌∷◌, All, All-imp, Bool-cases,
  arith,
}
use mathlib.Core.Path.{subst}
use order_agent.Prelude.Text.{str_eq}
use order_agent.Json.{Json, text, arr, Items, nil, cons, Fields, end, field}
use order_agent.Menu.{has_text}
use order_agent.Fallback.{FallbackAction}
use order_agent.Fallback.Convert.{
  Library, get_field, printed_items, text_values, extract_options, implicit_action,
}

some_json : {a b : Json} → some a ≡ some b → a ≡ b
some_json h = cc

module _ (library : Library) where
  open library use {printed}

  -- The printed form of an element of a list.
  abbrev pub IsPrinted : String → Items → Type 0
  IsPrinted option nil = ⊥
  IsPrinted option (cons j items) = (option ≡ printed j) ⊎ IsPrinted option items

  -- What one value gives: a text itself, a list its elements.
  abbrev pub IsOf : String → Json → Type 0
  IsOf option (text t) = option ≡ t
  IsOf option (arr items) = IsPrinted option items
  IsOf option _ = ⊥

  abbrev pub IsAmong : String → Fields → Type 0
  IsAmong option end = ⊥
  IsAmong option (field key j fields) = IsOf option j ⊎ IsAmong option fields

  -- Whether one of the answer's actions gives an option.
  abbrev pub IsOffered : List FallbackAction → String → Type 0
  IsOffered [] option = ⊥
  IsOffered (action ∷ actions) option = IsAmong option action.options ⊎ IsOffered actions option

  printed_items-IsPrinted :
      (items : Items) → All (λ option. IsPrinted option items) (printed_items library items)
  unfolding printed_items
  printed_items-IsPrinted nil = tt
  printed_items-IsPrinted (cons j items) =
      let rest =
        All-imp (λ s h. inr h) (printed_items library items) (printed_items-IsPrinted items) in
      elim (Bool-cases (library.is_true j)) [
        | inl kept ↦ rw kept (inl refl, rest)
        | inr dropped ↦ rw dropped rest
      ]

  text_values-IsAmong :
      (fields : Fields) → All (λ option. IsAmong option fields) (text_values library fields)
  unfolding text_values
  text_values-IsAmong end = tt
  text_values-IsAmong (field key (text t) fields) =
      let rest = All-imp (λ s h. inr h) (text_values library fields) (text_values-IsAmong fields) in
      elim (Bool-cases (has_text t)) [
        | inl given ↦ rw given (inl refl, rest)
        | inr blank ↦ rw blank rest
      ]
  text_values-IsAmong (field key j fields) =
      All-imp (λ s h. inr h) (text_values library fields) (text_values-IsAmong fields)

  get_field-IsAmong :
      (key : String) (fields : Fields) {j : Json}
      → get_field key fields ≡ some j
      → (option : String) → IsOf option j
      → IsAmong option fields
  unfolding get_field
  get_field-IsAmong key end h option given = cc
  get_field-IsAmong key (field k value fields) {j} h option given =
      elim (Bool-cases (str_eq k key)) [
        | inl hit ↦
            let same : value ≡ j = some_json (rw hit at h) in
            inl (subst (IsOf option) (sym same) given)
        | inr miss ↦ inr (get_field-IsAmong key fields (rw miss at h) option given)
      ]

  options_in-IsAmong :
      (action : FallbackAction) (value : Option Json)
      → get_field "options" action.options ≡ value
      → All
          (λ option. IsAmong option action.options)
          (elim value [
            | some (arr items) ↦ printed_items library items
            | _ ↦ text_values library action.options
          ])
  options_in-IsAmong action (some (arr items)) h =
      All-imp (get_field-IsAmong "options" action.options h) (printed_items library items)
        (printed_items-IsPrinted items)
  options_in-IsAmong action _ h = text_values-IsAmong action.options

  -- Every option of an action is among its own values.
  pub extract_options-IsAmong :
      (action : FallbackAction)
      → All (λ option. IsAmong option action.options) (extract_options library action)
  unfolding extract_options
  extract_options-IsAmong action =
      options_in-IsAmong action (get_field "options" action.options) refl

  -- The options of an answer's one action are offered by it.
  pub extract_options-IsOffered :
      (action : FallbackAction) → All (IsOffered (action ∷ [])) (extract_options library action)
  extract_options-IsOffered action =
      All-imp (λ s h. inl h) (extract_options library action) (extract_options-IsAmong action)

  -- The action that stands for an intent has no options.
  pub implicit_action-IsOffered :
      (intent : String) {action : FallbackAction}
      → implicit_action intent ≡ some action
      → All (IsOffered []) (extract_options library action)
  unfolding implicit_action
  implicit_action-IsOffered intent {action} h =
      let empty : action.options ≡ end = ground arith in
      All-imp (λ s given. absurd (subst (IsAmong s) empty given)) (extract_options library action)
        (extract_options-IsAmong action)
