-- ===== src/ManagedObject/Share/Steps.antt =====
-- Each of the calls that share, moderate and lock an object changes its standing.
use Prim.Native.String.{String}
use feather.Common.{
  nat_eq, string_eq, list_eq, if◌then◌else◌, ℕ, Bool, true, false, ◌≡◌, refl, ◌<◌, ◌≢◌, Option,
  some, List, ◌∷◌, Bool-cases, is_some, inl, inr, arith,
}
use feather.Couch.{Couch}
use feather.Foundation.{Exception, raised}
use feather.Interfaces.Object.{ModerationState, unmoderated, accepted, rejected, moderation_code}
use feather.Json.{Value, number, bool_value, boolean}
use feather.ManagedObject.{Posting, Object, Class, Surroundings}
use feather.ManagedObject.Save.{write}
use feather.ManagedObject.Share.{
  is_shared, set_shared, moderation_state, moderate, is_locked, lock, unlock,
}
use feather.ManagedObject.Share.Once.{write_result}
use feather.ManagedObject.Write.{is_deleted}
use feather.ManagedObject.Share.Standing.{
  Standing, Step, share_it, accept_it, reject_it, lock_it, unlock_it, advance, perform, Stands,
  EndsIn,
}

module _ (couch : Couch) (class : Class) (env : Surroundings) (int_of_text : String → ℕ)
    (properties_to_save : couch.Model → String → Option Value) where
  open couch use {
    Model, value, put, value-put, document_id, document_deleted, document_id-put,
    document_deleted-put,
  }

  put_here :
      (p : String) (n : ℕ) (o : Object Model)
      → is_deleted couch o ≡ false
      → is_deleted couch (record o { model = put p (some (number n)) o.model }) ≡ false
  unfolding is_deleted
  put_here p n o here = ground (
    arith,
    here,
    document_id-put p (some (number n)) o.model,
    document_deleted-put p (some (number n)) o.model,
  )

  put_shared :
      (o : Object Model) (s : Standing) (postings : List Posting)
      → Stands couch class env int_of_text properties_to_save o s
      → Stands couch class env int_of_text properties_to_save
          (record o { model = put "shared" (some (number 1)) o.model; posted = postings })
          (record s { shared = true })
  unfolding is_shared moderation_state is_locked bool_value is_deleted
  put_shared o s postings h = record {
    here = put_here "shared" 1 o h.here;
    shared = ground (arith, value-put "shared" "shared" (some (number 1)) o.model);
    state = ground (arith, h.state, value-put "shared" "moderationState" (some (number 1)) o.model);
    locked = ground (arith, h.locked, value-put "shared" "locked" (some (number 1)) o.model);
  }

  put_state :
      (n : ℕ) (m : ModerationState) (o : Object Model) (s : Standing)
      → n ≡ moderation_code m
      → n < 3
      → Stands couch class env int_of_text properties_to_save o s
      → Stands couch class env int_of_text properties_to_save
          (record o { model = put "moderationState" (some (number n)) o.model })
          (record s { state = m })
  unfolding is_shared moderation_state is_locked bool_value
  put_state n m o s e small h = record {
    here = put_here "moderationState" n o h.here;
    shared =
        ground (arith, h.shared, value-put "moderationState" "shared" (some (number n)) o.model);
    state = ground (arith, value-put "moderationState" "moderationState" (some (number n)) o.model);
    locked =
        ground (arith, h.locked, value-put "moderationState" "locked" (some (number n)) o.model);
  }

  put_locked :
      (b : Bool) (o : Object Model) (s : Standing)
      → Stands couch class env int_of_text properties_to_save o s
      → Stands couch class env int_of_text properties_to_save
          (record o { model = put "locked" (some (boolean b)) o.model })
          (record s { locked = b })
  unfolding is_shared moderation_state is_locked bool_value
  put_locked b o s h = record {
    here = put_here "locked" (if b then 1 else 0) o h.here;
    shared = ground (arith, h.shared, value-put "locked" "shared" (some (boolean b)) o.model);
    state =
        ground (arith, h.state, value-put "locked" "moderationState" (some (boolean b)) o.model);
    locked = ground (arith, value-put "locked" "locked" (some (boolean b)) o.model);
  }

  share_refines :
      (a : Bool) (m : ModerationState) (c : Bool) (o : Object Model)
      → Stands couch class env int_of_text properties_to_save o
          (record { shared = a; state = m; locked = c })
      → EndsIn couch class env int_of_text properties_to_save
          (some (record { shared = true; state = m; locked = c }))
          (perform couch class env int_of_text properties_to_save share_it o)
  unfolding perform set_shared
  share_refines true m c o h = (o, ground (arith, h.shared), h)
  share_refines false m c o h =
      let written =
        write_result couch class env int_of_text properties_to_save "shared" 1 o refl refl h.here in
      (
        record o {
          model = put "shared" (some (number 1)) o.model;
          posted = Posting.shared ∷ o.posted;
        },
        ground (arith, h.shared, written),
        put_shared o (record { shared = false; state = m; locked = c }) (Posting.shared ∷ o.posted)
            h,
      )

  moderate_other :
      (n : ℕ) (m : ModerationState) (o : Object Model) (s : Standing)
      → Stands couch class env int_of_text properties_to_save o s
      → n ≡ moderation_code m
      → n < 3
      → moderation_code s.state ≢ n
      → EndsIn couch class env int_of_text properties_to_save
          (some (record s { state = m }))
          (moderate couch class env int_of_text properties_to_save n o)
  unfolding moderate write
  moderate_other n m o s h code small other =
      let written =
        write_result couch class env int_of_text properties_to_save "moderationState" n o refl refl
          h.here in
      (
        record o { model = put "moderationState" (some (number n)) o.model },
        ground (arith, h.state, other, written),
        put_state n m o s code small h,
      )

  moderate_again :
      (n : ℕ) (o : Object Model) (s : Standing)
      → Stands couch class env int_of_text properties_to_save o s
      → moderation_code s.state ≡ n
      → moderate couch class env int_of_text properties_to_save n o ≡ raised Exception.assertion
  unfolding moderate
  moderate_again n o s h again = ground (arith, h.state, again)

  accept_refines :
      (a : Bool) (m : ModerationState) (c : Bool) (o : Object Model)
      → Stands couch class env int_of_text properties_to_save o
          (record { shared = a; state = m; locked = c })
      → EndsIn couch class env int_of_text properties_to_save
          (advance accept_it (record { shared = a; state = m; locked = c }))
          (perform couch class env int_of_text properties_to_save accept_it o)
  unfolding perform advance moderation_code
  accept_refines a unmoderated c o h =
      moderate_other 1 accepted o (record { shared = a; state = unmoderated; locked = c }) h
        (omega arith) (omega arith) (omega arith)
  accept_refines a accepted c o h =
      moderate_again 1 o (record { shared = a; state = accepted; locked = c }) h (omega arith)
  accept_refines a rejected c o h =
      moderate_other 1 accepted o (record { shared = a; state = rejected; locked = c }) h
        (omega arith) (omega arith) (omega arith)

  reject_refines :
      (a : Bool) (m : ModerationState) (c : Bool) (o : Object Model)
      → Stands couch class env int_of_text properties_to_save o
          (record { shared = a; state = m; locked = c })
      → EndsIn couch class env int_of_text properties_to_save
          (advance reject_it (record { shared = a; state = m; locked = c }))
          (perform couch class env int_of_text properties_to_save reject_it o)
  unfolding perform advance moderation_code
  reject_refines a unmoderated c o h =
      moderate_other 2 rejected o (record { shared = a; state = unmoderated; locked = c }) h
        (omega arith) (omega arith) (omega arith)
  reject_refines a accepted c o h =
      moderate_other 2 rejected o (record { shared = a; state = accepted; locked = c }) h
        (omega arith) (omega arith) (omega arith)
  reject_refines a rejected c o h =
      moderate_again 2 o (record { shared = a; state = rejected; locked = c }) h (omega arith)

  lock_refines :
      (a : Bool) (m : ModerationState) (c : Bool) (o : Object Model)
      → Stands couch class env int_of_text properties_to_save o
          (record { shared = a; state = m; locked = c })
      → EndsIn couch class env int_of_text properties_to_save
          (some (record { shared = a; state = m; locked = true }))
          (perform couch class env int_of_text properties_to_save lock_it o)
  unfolding perform lock
  lock_refines a m true o h = (o, ground (arith, h.locked), h)
  lock_refines a m false o h =
      let written =
        write_result couch class env int_of_text properties_to_save "locked" 1 o refl refl h.here in
      (
        record o { model = put "locked" (some (boolean true)) o.model },
        ground (arith, h.locked, written),
        put_locked true o (record { shared = a; state = m; locked = false }) h,
      )

  unlock_refines :
      (a : Bool) (m : ModerationState) (c : Bool) (o : Object Model)
      → Stands couch class env int_of_text properties_to_save o
          (record { shared = a; state = m; locked = c })
      → EndsIn couch class env int_of_text properties_to_save
          (some (record { shared = a; state = m; locked = false }))
          (perform couch class env int_of_text properties_to_save unlock_it o)
  unfolding perform unlock
  unlock_refines a m true o h =
      let written =
        write_result couch class env int_of_text properties_to_save "locked" 0 o refl refl h.here in
      (
        record o { model = put "locked" (some (boolean false)) o.model },
        ground (arith, h.locked, written),
        put_locked false o (record { shared = a; state = m; locked = true }) h,
      )
  unlock_refines a m false o h = elim (Bool-cases (is_some (properties_to_save o.model "locked"))) [
    | inl there ↦ (o, ground (arith, h.locked, there), h)
    | inr absent ↦
        let written =
          write_result couch class env int_of_text properties_to_save "locked" 0 o refl refl
            h.here in
        (
          record o { model = put "locked" (some (boolean false)) o.model },
          ground (arith, h.locked, absent, written),
          put_locked false o (record { shared = a; state = m; locked = false }) h,
        )
  ]

  pub step_refines :
      (a : Step) (o : Object Model) (s : Standing)
      → Stands couch class env int_of_text properties_to_save o s
      → EndsIn couch class env int_of_text properties_to_save
          (advance a s)
          (perform couch class env int_of_text properties_to_save a o)
  unfolding advance
  step_refines share_it o s h = share_refines s.shared s.state s.locked o h
  step_refines accept_it o s h = accept_refines s.shared s.state s.locked o h
  step_refines reject_it o s h = reject_refines s.shared s.state s.locked o h
  step_refines lock_it o s h = lock_refines s.shared s.state s.locked o h
  step_refines unlock_it o s h = unlock_refines s.shared s.state s.locked o h
