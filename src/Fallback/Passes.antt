-- ===== src/Fallback/Passes.antt =====
-- A property of what passes a chain of guards.
use order_agent.Prelude.{
  ◌≡◌, refl, Bool, true, false, not, String, Option, none, some, List, [], ◌∷◌, All, arith,
}
use order_agent.Prelude.Int.{ℤ, pos, negsuc}
use order_agent.State.{MenuItem}
use order_agent.Fallback.{
  FallbackAction, Checked, refused, passed, is_in_range, has_quantity_in_range, refuse_if,
  answer_if, check_actions,
}
use order_agent.Fallback.Convert.{implicit_action, quantity_or_one}

abbrev pub HasRange : FallbackAction → Type 0
HasRange action = has_quantity_in_range action ≡ true

abbrev pub PassesWith {ℓ} : {A : Type ℓ} → (A → Type 0) → Checked A → Type 0
PassesWith P (refused reason) = Unit
PassesWith P (passed a) = P a

-- What passes has `P`.
pub record Passes {ℓ} {A : Type ℓ} (P : A → Type 0) (c : Checked A) : Type 0 where
  pub holds : PassesWith P c

pub Passes-refused {ℓ} : {A : Type ℓ} {P : A → Type 0} {reason : String} → Passes P (refused reason)
Passes-refused = record { holds = tt }

pub Passes-passed {ℓ} : {A : Type ℓ} {P : A → Type 0} {a : A} → P a → Passes P (passed a)
Passes-passed h = record { holds = h }

pub Passes-answer_if {ℓ} :
    {A : Type ℓ} {P : A → Type 0} (test : Bool) (answer rest : Checked A)
    → Passes P answer
    → Passes P rest
    → Passes P (answer_if test answer rest)
unfolding answer_if
Passes-answer_if true answer rest h k = h
Passes-answer_if false answer rest h k = k

pub Passes-refuse_if {ℓ} :
    {A : Type ℓ} {P : A → Type 0} (test : Bool) (reason : String) (rest : Checked A)
    → (test ≡ false → Passes P rest)
    → Passes P (refuse_if test reason rest)
unfolding refuse_if
Passes-refuse_if true reason rest h = Passes-refused
Passes-refuse_if false reason rest h = h refl

pub is_true_of_not : (b : Bool) → not b ≡ false → b ≡ true
is_true_of_not b h = ground arith

pub check_actions-Passes {ℓ} :
    {A : Type ℓ} (P : A → Type 0) (actions : List FallbackAction) (rest : Checked A)
    → (All HasRange actions → Passes P rest)
    → Passes P (check_actions actions rest)
unfolding check_actions
check_actions-Passes P [] rest h = h tt
check_actions-Passes P (action ∷ actions) rest h = Passes-refuse_if _ _ _ (λ known.
    Passes-refuse_if _ _ _ (λ range.
      check_actions-Passes P actions rest
        (λ ranges. h (is_true_of_not (has_quantity_in_range action) range, ranges))))

pub quantity_or_one-range :
    (q : Option ℤ)
    → elim q [ none ↦ true | some n ↦ is_in_range n ] ≡ true
    → is_in_range (quantity_or_one q) ≡ true
quantity_or_one-range none h = refl
quantity_or_one-range (some (pos n)) h = ground arith
quantity_or_one-range (some (negsuc n)) h = ground arith

pub implicit_action-HasRange :
    (intent : String) {action : FallbackAction}
    → implicit_action intent ≡ some action
    → HasRange action
unfolding implicit_action
implicit_action-HasRange intent h = ground arith

pub All-Unit : (items : List MenuItem) → All (λ m. Unit {0}) items
All-Unit [] = tt
All-Unit (m ∷ items) = (tt, All-Unit items)
