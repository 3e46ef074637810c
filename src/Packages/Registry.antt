-- ===== src/Packages/Registry.antt =====
-- The registry of open packages: `registerDatabasePackageController:`, which asserts what the debug build
-- asserts, `deregisterDatabasePackageController:` and
-- `databasePackageControllerWithFullyQualifiedIdentifier:`. A package controller is known by a
-- number, a string is the list of its codes.
use feather.Common.{
  ℕ, Bool, true, false, not, ◌||◌, ◌≡◌, refl, Option, none, some, List, [], ◌∷◌, all, if◌then◌else◌,
  ◌==◌, nat_eq, list_eq, list_beq_iff, ==_refl, arith, ap, ◌∙◌, Bool-cases, inl, inr,
}
use feather.Foundation.{Outcome, returned, ◌>>=◌, ◌>>◌, assert}

unfoldable pub registered : List ℕ → List (List ℕ × ℕ) → Option ℕ
registered i [] = none
registered i ((j, o) ∷ r) = if i == j then some o else registered i r

unfoldable pub remove_registered : List ℕ → List (List ℕ × ℕ) → List (List ℕ × ℕ)
remove_registered i [] = []
remove_registered i ((j, o) ∷ r) =
    let rest = remove_registered i r in if i == j then rest else (j, o) ∷ rest

unfoldable pub is_or_none : Option ℕ → ℕ → Bool
is_or_none none pc = true
is_or_none (some o) pc = o == pc

-- Each controller has an identifier of its own, made when it is opened.
module _ (identifier : ℕ → List ℕ) where
  abbrev same_key : ℕ → List ℕ × ℕ → Bool
  same_key pc (j, o) = not (o == pc) || identifier pc == identifier o

  unfoldable pub register : ℕ → List (List ℕ × ℕ) → Outcome (List (List ℕ × ℕ))
  unfolding registered is_or_none
  register pc r = do
    assert (is_or_none (registered (identifier pc) r) pc)
    assert (all (same_key pc) r)
    returned (elim (registered (identifier pc) r) [ none ↦ (identifier pc, pc) ∷ r | some o ↦ r ])

  unfoldable pub deregister : ℕ → List (List ℕ × ℕ) → List (List ℕ × ℕ)
  unfolding remove_registered
  deregister pc r = remove_registered (identifier pc) r

-- A package is opened or goes.
pub data Event : Type 0 where
  opens : ℕ → Event
  goes : ℕ → Event

abbrev pub is_open : List Event → (ℕ → Bool) → ℕ → Bool
is_open [] before pc = before pc
is_open (opens q ∷ es) before pc = is_open es (λ p. if p == q then true else before p) pc
is_open (goes q ∷ es) before pc = is_open es (λ p. if p == q then false else before p) pc

module _ (identifier : ℕ → List ℕ) where
  unfoldable pub run : List Event → List (List ℕ × ℕ) → Outcome (List (List ℕ × ℕ))
  unfolding register deregister
  run [] r = returned r
  run (opens pc ∷ es) r = register identifier pc r >>= run es
  run (goes pc ∷ es) r = run es (deregister identifier pc r)

registered-remove :
    (i j : List ℕ) (r : List (List ℕ × ℕ))
    → registered i (remove_registered j r) ≡ (if i == j then none else registered i r)
unfolding registered remove_registered
registered-remove i j [] = ground arith
registered-remove i j ((k, o) ∷ r) =
    ground (arith, registered-remove i j r, list_beq_iff i j, list_beq_iff j k, list_beq_iff i k)

own_key :
    (identifier : ℕ → List ℕ) (o pc : ℕ) → (o == pc) ≡ true → (identifier pc == identifier o) ≡ true
own_key identifier o pc it =
    let same : o ≡ pc = ground (arith, it) in
    ground (arith, list_beq_iff (identifier pc) (identifier o), ap identifier same)

same_keys :
    (identifier : ℕ → List ℕ) (pc : ℕ) (r : List (List ℕ × ℕ))
    → all (same_key identifier pc) r ≡ true
same_keys identifier pc [] = refl
same_keys identifier pc ((j, o) ∷ r) = elim (Bool-cases (o == pc)) [
  | inl it ↦ ground (arith, own_key identifier o pc it, same_keys identifier pc r)
  | inr other ↦ ground (arith, other, same_keys identifier pc r)
]

register_open :
    (identifier : ℕ → List ℕ) (pc : ℕ) (r : List (List ℕ × ℕ))
    → registered (identifier pc) r ≡ some pc
    → register identifier pc r ≡ returned r
unfolding register is_or_none
register_open identifier pc r h = rw (h, ==_refl pc, same_keys identifier pc r)

register_new :
    (identifier : ℕ → List ℕ) (pc : ℕ) (r : List (List ℕ × ℕ))
    → registered (identifier pc) r ≡ none
    → register identifier pc r ≡ returned ((identifier pc, pc) ∷ r)
unfolding register is_or_none
register_new identifier pc r h = rw (h, same_keys identifier pc r)

-- What the registry finds is what is open.
abbrev pub Finds : (ℕ → List ℕ) → List (List ℕ × ℕ) → (ℕ → Bool) → Type 0
Finds identifier r is_open =
    (p : ℕ) → registered (identifier p) r ≡ (if is_open p then some p else none)

module _ (identifier : ℕ → List ℕ) (apart : (p q : ℕ) → identifier p ≡ identifier q → p ≡ q) where
  key-== : (p q : ℕ) → (identifier p == identifier q) ≡ (p == q)
  key-== p q = elim (Bool-cases (p == q)) [
    | inl same ↦
        let it : p ≡ q = ground (arith, same) in
        ground (arith, same, list_beq_iff (identifier p) (identifier q), ap identifier it)
    | inr other ↦ ground (arith, other, list_beq_iff (identifier p) (identifier q), apart p q)
  ]

  register-Finds :
      (pc : ℕ) (r : List (List ℕ × ℕ)) (before : ℕ → Bool)
      → Finds identifier r before
      → (r' : List (List ℕ × ℕ)) × (register identifier pc r ≡ returned r')
        × Finds identifier r' (λ p. if p == pc then true else before p)
  unfolding registered
  register-Finds pc r before h = elim (Bool-cases (before pc)) [
    | inl there ↦ (
      r,
      register_open identifier pc r (ground (arith, h pc, there)),
      λ p. elim (Bool-cases (p == pc)) [
        | inl same ↦
            let it : p ≡ pc = ground (arith, same) in ground (arith, same, h p, there, ap before it)
        | inr other ↦ ground (arith, other, h p)
      ],
    )
    | inr new ↦ (
      (identifier pc, pc) ∷ r,
      register_new identifier pc r (ground (arith, h pc, new)),
      λ p. ground (arith, key-== p pc, h p),
    )
  ]

  deregister-Finds :
      (pc : ℕ) (r : List (List ℕ × ℕ)) (before : ℕ → Bool)
      → Finds identifier r before
      → Finds identifier (deregister identifier pc r) (λ p. if p == pc then false else before p)
  unfolding deregister
  deregister-Finds pc r before h p =
      ground (arith, registered-remove (identifier p) (identifier pc) r, key-== p pc, h p)

-- From a registry that has just the open packages, whatever packages are opened and go, no assertion fails,
-- and an identifier finds its package as long as that is open and nothing otherwise, if no two packages have
-- the same identifier.
pub run-registered :
    (identifier : ℕ → List ℕ) (es : List Event) (r : List (List ℕ × ℕ)) (before : ℕ → Bool)
    → ((p q : ℕ) → identifier p ≡ identifier q → p ≡ q)
    → Finds identifier r before
    → (r' : List (List ℕ × ℕ)) × (run identifier es r ≡ returned r')
      × Finds identifier r' (is_open es before)
unfolding run
run-registered identifier [] r before apart h = (r, refl, h)
run-registered identifier (opens pc ∷ es) r before apart h =
    let (r1, it, finds) = register-Finds identifier apart pc r before h in
    let (r2, rest, all_finds) =
      run-registered identifier es r1 (λ p. if p == pc then true else before p) apart finds in
    (r2, ap (λ m. m >>= run identifier es) it ∙ rest, all_finds)
run-registered identifier (goes pc ∷ es) r before apart h =
    run-registered identifier es (deregister identifier pc r)
      (λ p. if p == pc then false else before p) apart
      (deregister-Finds identifier apart pc r before h)
