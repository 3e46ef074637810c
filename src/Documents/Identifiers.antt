-- ===== src/Documents/Identifiers.antt =====
-- Which dictionaries are documents of managed objects.
use feather.Common.{
  all, ◌==◌, nat_eq, ==_refl, list_eq, string_eq, Bool-cases, ℕ, ◌≡◌, refl, ap, ◌↔◌, inl, inr, Bool,
  true, false, not, Option, none, some, List, [], ◌∷◌, ◌++◌, arith,
}
use feather.Documents.{is_colon, check_identifier, is_managed_object_dictionary}
use feather.Texts.{components}

pub has_no_colon : List ℕ → Bool
has_no_colon xs = all (λ c. not (is_colon c)) xs

components-cons :
    (xs : List ℕ) → (w : List ℕ) × (ws : List (List ℕ)) × (components is_colon xs ≡ w ∷ ws)
unfolding components
components-cons [] = ([], [], refl)
components-cons (x ∷ xs) =
    let (w, ws, e) = components-cons xs in
    elim (Bool-cases (is_colon x)) [
      | inl colon ↦ ([], components is_colon xs, ground (arith, colon))
      | inr letter ↦ (x ∷ w, ws, ground (arith, letter, e))
    ]

components-one :
    (xs : List ℕ) (a : List ℕ)
    → components is_colon xs ≡ a ∷ []
    → (xs ≡ a) × (has_no_colon xs ≡ true)
unfolding components has_no_colon
components-one [] a h = (ground arith, refl)
components-one (x ∷ xs) a h =
    let (w, ws, e) = components-cons xs in
    elim (Bool-cases (is_colon x)) [
      | inl colon ↦ absurd (ground (arith, colon, e))
      | inr letter ↦
          let (same, free) = components-one xs w (ground (arith, letter, e)) in
          (ground (arith, letter, e, same), ground (arith, letter, free))
    ]

components-two :
    (xs a b : List ℕ)
    → components is_colon xs ≡ a ∷ b ∷ []
    → (xs ≡ a ++ (58 ∷ b)) × (has_no_colon a ≡ true) × (has_no_colon b ≡ true)
unfolding components is_colon has_no_colon
components-two [] a b h = absurd (ground arith)
components-two (x ∷ xs) a b h =
    let (w, ws, e) = components-cons xs in
    elim (Bool-cases (x == 58)) [
      | inl colon ↦
          let (same, free) = components-one xs b (ground (arith, colon, e)) in
          let nothing : a ≡ [] = ground (arith, colon) in
          let first : x ≡ 58 = ground (arith, colon) in
          (rw (nothing, first, same) refl, rw nothing refl, ground (arith, same, free))
      | inr letter ↦
          let start : a ≡ x ∷ w = ground (arith, letter, e) in
          let (same, free, free') = components-two xs w b (ground (arith, letter, e)) in
          (rw start (ap (◌∷◌ x) same), rw start (ground (arith, letter, free)), free')
    ]

components_of_one : (xs : List ℕ) → has_no_colon xs ≡ true → components is_colon xs ≡ xs ∷ []
unfolding components is_colon has_no_colon
components_of_one [] h = refl
components_of_one (x ∷ xs) h =
    let dark : (x == 58) ≡ false = ground arith in
    ground (arith, dark, components_of_one xs (ground (arith, dark)))

components_of_two :
    (a b : List ℕ)
    → has_no_colon a ≡ true
    → has_no_colon b ≡ true
    → components is_colon (a ++ (58 ∷ b)) ≡ a ∷ b ∷ []
unfolding components is_colon has_no_colon
components_of_two [] b h k = rw (components_of_one b k) refl
components_of_two (x ∷ a) b h k =
    let dark : (x == 58) ≡ false = ground arith in
    ground (arith, dark, components_of_two a b (ground (arith, dark)) k)

check_identifier_parts :
    (name : List ℕ) (parts : List (List ℕ))
    → check_identifier name parts ≡ none
    → (rest : List ℕ) × (parts ≡ name ∷ rest ∷ [])
unfolding check_identifier
check_identifier_parts name [] h = absurd (ground arith)
check_identifier_parts name (a ∷ []) h = absurd (ground arith)
check_identifier_parts name (a ∷ b ∷ []) h = elim (Bool-cases (a == name)) [
  | inl alike ↦ (b, rw (((list_eq {A = ℕ}).is_equal_iff a name).0 alike) refl)
  | inr other ↦ absurd (ground (arith, other))
]
check_identifier_parts name (a ∷ b ∷ c ∷ parts) h = absurd (ground arith)

valid_parts :
    (is_class : List ℕ → Bool) (object_type document_id : Option (List ℕ))
    → is_managed_object_dictionary is_class object_type document_id ≡ none
    → (name : List ℕ) × (rest : List ℕ) × (object_type ≡ some name)
      × (document_id ≡ some (name ++ (58 ∷ rest)))
      × (is_class name ≡ true)
      × (has_no_colon name ≡ true)
      × (has_no_colon rest ≡ true)
unfolding is_managed_object_dictionary check_identifier
valid_parts is_class none document_id h = absurd (ground arith)
valid_parts is_class (some name) none h = absurd (ground arith)
valid_parts is_class (some name) (some id) h =
    let class : is_class name ≡ true = ground arith in
    let (rest, parts) =
      check_identifier_parts name (components is_colon id) (ground (arith, class)) in
    let (same, free, free') = components-two id name rest parts in
    (name, rest, refl, ap some same, class, free, free')

parts_valid :
    (is_class : List ℕ → Bool) (object_type document_id : Option (List ℕ))
    → ((name : List ℕ) × (rest : List ℕ) × (object_type ≡ some name)
        × (document_id ≡ some (name ++ (58 ∷ rest)))
        × (is_class name ≡ true)
        × (has_no_colon name ≡ true)
        × (has_no_colon rest ≡ true))
    → is_managed_object_dictionary is_class object_type document_id ≡ none
unfolding is_managed_object_dictionary check_identifier
parts_valid is_class object_type document_id (name, rest, t, d, c, f, g) =
    rw (t, d, c, components_of_two name rest f g, ==_refl name) refl

-- A dictionary is that of a managed object exactly where it has the name of a class of managed objects
-- as its objectType, and as its _id that name, without a colon in it, then a colon, and then a string
-- without a colon.
pub is_managed_object_dictionary_iff :
    (is_class : List ℕ → Bool) (object_type document_id : Option (List ℕ))
    → (is_managed_object_dictionary is_class object_type document_id ≡ none) ↔ (
        (name : List ℕ) × (rest : List ℕ) × (object_type ≡ some name)
        × (document_id ≡ some (name ++ (58 ∷ rest)))
        × (is_class name ≡ true)
        × (has_no_colon name ≡ true)
        × (has_no_colon rest ≡ true))
unfolding is_managed_object_dictionary check_identifier
is_managed_object_dictionary_iff is_class object_type document_id =
    (valid_parts is_class object_type document_id, parts_valid is_class object_type document_id)
