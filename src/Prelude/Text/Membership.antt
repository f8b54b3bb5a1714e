-- ===== src/Prelude/Text/Membership.antt =====
-- Which texts stand in a list after it is appended to, sorted, or stripped of repetitions.
use Prim.Native.String.{String}
use mathlib.Core.Path.{◌≡◌, refl}
use mathlib.Core.Bool.{Bool, true, false, ◌||◌}
use mathlib.Core.List.{List, [], ◌∷◌, ◌++◌}
use native.Mathlib.Omega.{arith}
use text.Mathlib.TextEquality.{eq_iff}
use order_agent.Prelude.Lists.{All}
use order_agent.Prelude.Text.{member, str_eq, unique, unique_from, sorted, insert_sorted}

pub member-append :
    (s : String) (xs ys : List String) → member s (xs ++ ys) ≡ (member s xs || member s ys)
member-append s [] ys = refl
member-append s (x ∷ xs) ys = ground (arith, member-append s xs ys)

member-insert_sorted :
    (s x : String) (xs : List String) → member s (insert_sorted x xs) ≡ (str_eq x s || member s xs)
member-insert_sorted s x [] = refl
member-insert_sorted s x (y ∷ ys) = ground (arith, member-insert_sorted s x ys)

pub member-sorted : (s : String) (xs : List String) → member s (sorted xs) ≡ member s xs
unfolding sorted
member-sorted s [] = refl
member-sorted s (x ∷ xs) = ground (arith, member-insert_sorted s x (sorted xs), member-sorted s xs)

member-of_eq :
    (x s : String) (seen : List String)
    → str_eq x s ≡ true
    → member x seen ≡ true
    → member s seen ≡ true
member-of_eq x s seen same h = ground (arith, (eq_iff x s).0 same)

member-unique_from :
    (s : String) (seen xs : List String)
    → (member s (unique_from seen xs) || member s seen) ≡ (member s xs || member s seen)
member-unique_from s seen [] = refl
member-unique_from s seen (x ∷ xs) =
    ground (
      arith,
      member-unique_from s seen xs,
      member-unique_from s (x ∷ seen) xs,
      member-of_eq x s seen,
    )

or_false : (a b : Bool) → (a || false) ≡ (b || false) → a ≡ b
or_false a b h = ground arith

pub member-unique : (s : String) (xs : List String) → member s (unique xs) ≡ member s xs
member-unique s xs = or_false (member s (unique xs)) (member s xs) (member-unique_from s [] xs)

All-member_of :
    (seen xs : List String)
    → ((s : String) → member s xs ≡ true → member s seen ≡ true)
    → All (λ s. member s seen ≡ true) xs
All-member_of seen [] h = tt
All-member_of seen (x ∷ xs) h =
    (h x (ground (arith, eq_iff x x)), All-member_of seen xs (λ s here. h s (ground (arith, here))))

pub All-member : (xs : List String) → All (λ s. member s xs ≡ true) xs
All-member xs = All-member_of xs xs (λ s here. here)
