-- ===== src/Menu/Complete.antt =====
-- No dish that a text names is passed over, unless another one was taken at its place.
use mathlib.Core.Path.{subst}
use order_agent.Prelude.{
  sym, All-imp, if◌then◌else◌, ◌+◌, ◌<◌, ◌≡◌, ◌⊎◌, refl, Bool, true, false, ◌||◌, String, List, [],
  ◌∷◌, ◌++◌, any, All, All-split, arith, eq_iff, Bool-cases, inl, inr,
}
use order_agent.Prelude.Text.Membership.{All-member}
use order_agent.State.{MenuItem}
use order_agent.Menu.{Menu, Match, matching_names, name_matches, foremost, precedes}
use order_agent.Menu.Names.{names_of, IsAbsent, name_matches-IsAbsent}
use order_agent.Menu.Find.{IsMatch, IsGood, foremost-All, name_matches-All}
use order_agent.Menu.Chosen.{clashes, choose_spans, insert_match, sort_matches, earliest, positions}

-- One of the matches is of the same dish, or its place overlaps that of `m`.
abbrev pub Meets : Match → List Match → Type 0
Meets m [] = ⊥
Meets m (t ∷ ts) =
    ((m.item.id ≡ t.item.id) ⊎ ((m.at < t.at + t.size) × (t.at < m.at + m.size))) ⊎ Meets m ts

any-Meets : (m : Match) (ts : List Match) → any (clashes m) ts ≡ true → Meets m ts
any-Meets m [] h = cc
any-Meets m (t ∷ ts) h = elim (Bool-cases (clashes m t)) [
  | inl clash ↦ inl (ground (arith, clash, eq_iff m.item.id t.item.id))
  | inr apart ↦ inr (any-Meets m ts (ground (arith, h, apart)))
]

clashes_self : (m : Match) → clashes m m ≡ true
clashes_self m = ground (arith, eq_iff m.item.id m.item.id)

any-append : (p : Match → Bool) (xs ys : List Match) → any p (xs ++ ys) ≡ (any p xs || any p ys)
any-append p [] ys = refl
any-append p (x ∷ xs) ys = ground (arith, any-append p xs ys)

any-choose_spans :
    (p : Match → Bool) (taken ms : List Match)
    → any p taken ≡ true
    → any p (choose_spans taken ms) ≡ true
unfolding choose_spans
any-choose_spans p taken [] h = h
any-choose_spans p taken (m ∷ ms) h = elim (Bool-cases (any (clashes m) taken)) [
  | inl clash ↦ rw clash (any-choose_spans p taken ms h)
  | inr free ↦
      rw free
        (any-choose_spans p (taken ++ m ∷ []) ms (ground (arith, any-append p taken (m ∷ []), h)))
]

choose_spans_step :
    (taken ms : List Match) (m : Match) (clash : Bool)
    → any (clashes m) taken ≡ clash
    → choose_spans taken (m ∷ ms) ≡ choose_spans (if clash then taken else taken ++ m ∷ []) ms
unfolding choose_spans
choose_spans_step taken ms m clash h = rw h refl

-- Every match clashes with one of a list.
abbrev AllClash : List Match → List Match → Type 0
AllClash ms result = All (λ m. any (clashes m) result ≡ true) ms

choose_spans-AllClash : (taken ms : List Match) → AllClash ms (choose_spans taken ms)
choose_spans-AllClash taken [] = tt
choose_spans-AllClash taken (m ∷ ms) = elim (Bool-cases (any (clashes m) taken)) [
  | inl clash ↦
      subst (AllClash (m ∷ ms)) (sym (choose_spans_step taken ms m true clash))
        (any-choose_spans (clashes m) taken ms clash, choose_spans-AllClash taken ms)
  | inr free ↦ subst (AllClash (m ∷ ms)) (sym (choose_spans_step taken ms m false free)) (
    any-choose_spans (clashes m) (taken ++ m ∷ []) ms
        (ground (arith, any-append (clashes m) taken (m ∷ []), clashes_self m)),
    choose_spans-AllClash (taken ++ m ∷ []) ms,
  )
]

insert_match-parts :
    (P : Match → Type 0) (m : Match) (ms : List Match) → All P (insert_match m ms) → P m × All P ms
insert_match-parts P m [] h = (h.0, tt)
insert_match-parts P m (n ∷ ns) h = elim (Bool-cases (precedes n m)) [
  | inl before ↦
      let (first, rest) = rw (insert_match, All, before) at h in
      let (here, others) = insert_match-parts P m ns rest in (here, (first, others))
  | inr after ↦ let (here, others) = rw (insert_match, All, after) at h in (here, others)
]

sorted-All : (P : Match → Type 0) (ms : List Match) → All P (sort_matches ms) → All P ms
sorted-All P [] h = tt
sorted-All P (m ∷ ms) h =
    let (here, others) = insert_match-parts P m (sort_matches ms) h in
    (here, sorted-All P ms others)

-- The dish has no name in the text, or a match of it has `P`.
abbrev pub IsSeen : Menu → String → (Match → Type 0) → MenuItem → Type 0
IsSeen menu text P item =
    All (IsAbsent text) (names_of menu item)
    ⊎ ((m : Match) × (m.item ≡ item) × IsMatch menu text m × P m)

earliest-IsSeen :
    (menu : Menu) (text : String) (P : Match → Type 0) (item : MenuItem) (ms : List Match)
    → All (IsGood menu text (λ i. i ≡ item)) ms
    → All P (earliest ms)
    → (ms ≡ []) ⊎ ((m : Match) × (m.item ≡ item) × IsMatch menu text m × P m)
earliest-IsSeen menu text P item [] good h = inl refl
earliest-IsSeen menu text P item (m ∷ ms) good h =
    let best = foremost-All (IsGood menu text (λ i. i ≡ item)) m ms good.0 good.1 in
    inr (foremost m ms, best.0, best.1, h.0)

positions-IsSeen :
    (menu : Menu) (text : String) (P : Match → Type 0) (items : List MenuItem)
    → All P (positions menu text items)
    → All (IsSeen menu text P) items
unfolding positions
positions-IsSeen menu text P [] h = tt
positions-IsSeen menu text P (item ∷ items) h =
    let own = name_matches text item (matching_names menu item) in
    let (now, later) = All-split P (earliest own) (positions menu text items) h in
    let good =
      name_matches-All menu text (λ i. i ≡ item) item (matching_names menu item) refl
        (All-member (matching_names menu item)) in
    (
      elim (earliest-IsSeen menu text P item own good now) [
        | inl none_stands ↦ inl (name_matches-IsAbsent menu text item none_stands)
        | inr seen ↦ inr seen
      ],
      positions-IsSeen menu text P items later,
    )

-- Every dish whose name stands in the text has a match that meets one of those that are taken.
pub chosen-IsSeen :
    (menu : Menu) (text : String) (items : List MenuItem)
    → let taken = choose_spans [] (sort_matches (positions menu text items)) in
      All (IsSeen menu text (λ m. Meets m taken)) items
chosen-IsSeen menu text items =
    let found = positions menu text items in
    let taken = choose_spans [] (sort_matches found) in
    positions-IsSeen menu text (λ m. Meets m taken) items
      (sorted-All (λ m. Meets m taken) found
        (All-imp (λ m. any-Meets m taken) (sort_matches found)
          (choose_spans-AllClash [] (sort_matches found))))
