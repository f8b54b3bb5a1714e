-- ===== src/Menu/Spans.antt =====
-- What `find_items_in_text` finds: places that do not overlap, of different dishes, and all of them.
use order_agent.Prelude.{
  ◌+◌, ◌≤◌, ◌≡◌, ◌≢◌, ◌⊎◌, eq_iff, refl, true, false, String, List, [], ◌∷◌, ◌++◌, any, All, map,
  arith, All-keep_passing, All-append, Bool-cases, inl, inr,
}
use order_agent.State.{MenuItem}
use order_agent.Menu.{
  Menu, Match, available_items, is_available, has_text, matching_names, precedes, name_matches,
}
use order_agent.Menu.Find.{IsMatch, IsGood, foremost-All, name_matches-All}
use order_agent.Prelude.Text.Membership.{All-member}
use order_agent.Menu.Chosen.{
  earliest, positions, insert_match, sort_matches, clashes, choose_spans, chosen, dish,
  find_items_in_text,
}
use order_agent.Menu.Complete.{Meets, IsSeen, chosen-IsSeen}

-- Two matches are of different dishes, and one of their places ends before the other begins.
abbrev pub IsApart : Match → Match → Type 0
IsApart m n = ((m.at + m.size ≤ n.at) ⊎ (n.at + n.size ≤ m.at)) × (m.item.id ≢ n.item.id)

-- Any two of the matches are apart.
abbrev pub AreApart : List Match → Type 0
AreApart [] = Unit
AreApart (m ∷ ms) = All (IsApart m) ms × AreApart ms

clashes-IsApart : (m n : Match) → clashes m n ≡ false → IsApart n m
clashes-IsApart m n h =
    (ground (arith, h), λ same. ground (arith, h, eq_iff m.item.id n.item.id, same))

not_any-All :
    (m : Match) (taken : List Match)
    → any (clashes m) taken ≡ false
    → All (λ t. clashes m t ≡ false) taken
not_any-All m [] h = tt
not_any-All m (t ∷ ts) h = ground (arith, not_any-All m ts)

AreApart-end :
    (taken : List Match) (m : Match)
    → AreApart taken
    → All (λ t. clashes m t ≡ false) taken
    → AreApart (taken ++ m ∷ [])
AreApart-end [] m h k = (tt, tt)
AreApart-end (t ∷ ts) m h k = (
  All-append (IsApart t) ts (m ∷ []) h.0 (clashes-IsApart m t k.0, tt),
  AreApart-end ts m h.1 k.1,
)

choose_spans-AreApart : (taken ms : List Match) → AreApart taken → AreApart (choose_spans taken ms)
unfolding choose_spans
choose_spans-AreApart taken [] h = h
choose_spans-AreApart taken (m ∷ ms) h = elim (Bool-cases (any (clashes m) taken)) [
  | inl clash ↦ rw clash (choose_spans-AreApart taken ms h)
  | inr free ↦ rw free (
      choose_spans-AreApart (taken ++ m ∷ []) ms
        (AreApart-end taken m h (not_any-All m taken free)))
]

choose_spans-All :
    (P : Match → Type 0) (taken ms : List Match)
    → All P taken
    → All P ms
    → All P (choose_spans taken ms)
unfolding choose_spans
choose_spans-All P taken [] h k = h
choose_spans-All P taken (m ∷ ms) h k = elim (Bool-cases (any (clashes m) taken)) [
  | inl clash ↦ rw clash (choose_spans-All P taken ms h k.1)
  | inr free ↦
      rw free
        (choose_spans-All P (taken ++ m ∷ []) ms (All-append P taken (m ∷ []) h (k.0, tt)) k.1)
]

insert_match-All :
    (P : Match → Type 0) (m : Match) (ms : List Match) → P m → All P ms → All P (insert_match m ms)
insert_match-All P m [] h k = (h, tt)
insert_match-All P m (n ∷ ns) h k = elim (Bool-cases (precedes n m)) [
  | inl before ↦ rw (insert_match, All, before) (k.0, insert_match-All P m ns h k.1)
  | inr after ↦ rw (insert_match, All, after) (h, (k.0, k.1))
]

sort_matches-All : (P : Match → Type 0) (ms : List Match) → All P ms → All P (sort_matches ms)
sort_matches-All P [] h = tt
sort_matches-All P (m ∷ ms) h =
    insert_match-All P m (sort_matches ms) h.0 (sort_matches-All P ms h.1)

earliest-All : (P : Match → Type 0) (ms : List Match) → All P ms → All P (earliest ms)
earliest-All P [] h = tt
earliest-All P (m ∷ ms) h = (foremost-All P m ms h.0 h.1, tt)

module _ (menu : Menu) (text : String) (P : MenuItem → Type 0) where
  positions-All :
      (items : List MenuItem) → All P items → All (IsGood menu text P) (positions menu text items)
  unfolding positions
  positions-All [] h = tt
  positions-All (item ∷ items) h =
      let names = name_matches text item (matching_names menu item) in
      All-append (IsGood menu text P) (earliest names) (positions menu text items)
        (earliest-All (IsGood menu text P) names (
          name_matches-All menu text P item (matching_names menu item) h.0
            (All-member (matching_names menu item))))
        (positions-All items h.1)

-- The dishes that a text names are dishes of the menu, so they have what all of them have, and they
-- are available; for each a name of it stands in the text at the place that was taken for it. Of any
-- two of these places one ends before the other begins, and any two of the dishes have different ids.
-- No dish is passed over without a reason: the text is empty, or for each available dish no name of
-- it stands in the text, or one does whose place overlaps one that was taken, or is of a dish taken.
pub find_items_in_text_lem :
    (menu : Menu) (text : String) (P : MenuItem → Type 0)
    → All P menu.items
    → (ms : List Match) × (find_items_in_text menu text ≡ map dish ms)
      × AreApart ms
      × All (λ m. (P m.item × (m.item.available ≡ true)) × IsMatch menu text m) ms
      × ((has_text text ≡ false) ⊎ All (IsSeen menu text (λ m. Meets m ms)) (available_items menu))
unfolding find_items_in_text chosen
find_items_in_text_lem menu text P h = elim (Bool-cases (has_text text)) [
  | inr blank ↦ (chosen menu text, refl, rw blank tt, rw blank tt, inl blank)
  | inl given ↦
      let Q = λ (item : MenuItem). P item × (item.available ≡ true) in
      let ms = sort_matches (positions menu text (available_items menu)) in
      (
        chosen menu text,
        refl,
        rw given (choose_spans-AreApart [] ms tt),
        rw given (
            choose_spans-All (IsGood menu text Q) [] ms tt (
              sort_matches-All (IsGood menu text Q) (positions menu text (available_items menu)) (
                positions-All menu text Q (available_items menu)
                  (All-keep_passing P is_available menu.items h)))),
        inr (rw given (chosen-IsSeen menu text (available_items menu))),
      )
]
