-- ===== src/ManagedObject/Save/History.antt =====
-- The operations on one object in any order, and how often it is announced as added.
use feather.Common.{
  if◌then◌else◌, nat_eq, list_eq, string_eq, Bool-cases, ℕ, ◌+◌, ◌≡◌, ◌∙◌, inl, inr, Bool, List, [],
  ◌∷◌, arith,
}
use feather.Couch.{Couch}
use feather.Foundation.{Outcome, returned, ◌>>=◌, >>=-eq-returned}
use feather.ManagedObject.{add, Posting, recent, Object, Class, Surroundings, did_delete_object}
use feather.ManagedObject.Save.{is_clean, save_object, delete_saved, delete_document}
use feather.ManagedObject.Save.Lifecycle.{save_object_posts}
use feather.ManagedObject.Write.{set_value}
use feather.ManagedObject.Write.Once.{Assignment, set_value_cases}

-- What a caller does with an object.
pub data Operation : Type 0 where
  set_property : Assignment → Operation
  save_changes delete_it : Operation

-- How often the object was announced as added.
pub additions : List Posting → ℕ
additions [] = 0
additions (recent add s ∷ later) = 1 + additions later
additions (_ ∷ later) = additions later

pub fresh : Bool → ℕ
fresh new = if new then 1 else 0

module _ (couch : Couch) (class : Class) where
  open couch use {Model}

  -- An operation, in the surroundings of its time.
  unfoldable pub perform : Surroundings → Operation → Object Model → Outcome (Object Model)
  perform env (set_property a) o = do
    (o', _) ← set_value couch class env a.property a.new_value o
    returned o'
  perform env save_changes o = do (o', _) ← save_object couch class env o; returned o'
  perform env delete_it o = do (o', _) ← delete_document couch class env o; returned o'

  unfoldable pub perform_all :
      List (Surroundings × Operation) → Object Model → Outcome (Object Model)
  perform_all [] o = returned o
  perform_all ((env, operation) ∷ later) o = do o' ← perform env operation o; perform_all later o'

  save_object-additions :
      (env : Surroundings) (o o' : Object Model) (done : Bool)
      → save_object couch class env o ≡ returned (o', done)
      → additions o'.posted + fresh o'.is_new ≡ additions o.posted + fresh o.is_new
  unfolding save_object additions fresh
  save_object-additions env o o' done h = elim (Bool-cases (is_clean couch class env o)) [
    | inl clean ↦ ground (arith, clean)
    | inr dirty ↦ elim (save_object_posts couch class env o o' done dirty h) [
      | inl (_, posts, old, _) ↦ elim (Bool-cases o.is_new) [
        | inl new ↦ ground (arith, posts, old, new)
        | inr new ↦ ground (arith, posts, old, new)
      ]
      | inr (_, posts, new) ↦ ground (arith, posts, new)
    ]
  ]

  delete_document-additions :
      (env : Surroundings) (o o' : Object Model) (done : Bool)
      → delete_document couch class env o ≡ returned (o', done)
      → additions o'.posted + fresh o'.is_new ≡ additions o.posted + fresh o.is_new
  unfolding delete_document delete_saved did_delete_object additions fresh
  delete_document-additions env o o' done h = ground arith

  perform-additions :
      (env : Surroundings) (operation : Operation) (o o' : Object Model)
      → perform env operation o ≡ returned o'
      → additions o'.posted + fresh o'.is_new ≡ additions o.posted + fresh o.is_new
  unfolding perform
  perform-additions env (set_property a) o o' h =
      let ((o₁, done), written, e) =
        >>=-eq-returned (set_value couch class env a.property a.new_value o) _ h in
      elim (set_value_cases couch class env a.property a.new_value o o₁ done written) [
        | inl same ↦ ground arith
        | inr (w, same, _) ↦ ground arith
      ]
  perform-additions env save_changes o o' h =
      let ((o₁, done), saved, e) = >>=-eq-returned (save_object couch class env o) _ h in
      let same : o₁ ≡ o' = ground arith in rw (← same) (save_object-additions env o o₁ done saved)
  perform-additions env delete_it o o' h =
      let ((o₁, done), gone, e) = >>=-eq-returned (delete_document couch class env o) _ h in
      let same : o₁ ≡ o' = ground arith in
      rw (← same) (delete_document-additions env o o₁ done gone)

  -- Over any sequence of writes, saves and deletions that raises no exception, in surroundings that
  -- may differ from one to the next, the number of postings that announce the object as added, plus
  -- one while the object is new, stays what it was.
  pub perform_all_adds_once :
      (operations : List (Surroundings × Operation)) (o o' : Object Model)
      → perform_all operations o ≡ returned o'
      → additions o'.posted + fresh o'.is_new ≡ additions o.posted + fresh o.is_new
  unfolding perform_all
  perform_all_adds_once [] o o' h = ground arith
  perform_all_adds_once ((env, operation) ∷ later) o o' h =
      let (o₁, first, rest) = >>=-eq-returned (perform env operation o) _ h in
      perform_all_adds_once later o₁ o' rest ∙ perform-additions env operation o o₁ first
