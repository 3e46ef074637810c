-- ===== src/Interfaces/Contributor.antt =====
-- Contributors and snapshots: Feather/Sources/Model/MPContributor.h,
-- Feather/Sources/Model Controllers/MPContributorsController.h and Feather/Sources/Model/MPSnapshot.h.
-- An object of one of these classes is a managed object, so a method of that class takes it too.
use Prim.Native.Nat.{Ordering}
use Prim.Native.String.{String}
use feather.Common.{ℕ, Bool, Option, List}
use feather.Interfaces.Base.{ℤ, Platform, Getter, Effect, Action, Attempt, Dictionary}

module _ (p : Platform) where
  open p use {
    Any, Class, Date, Image, Attachment, ManagedObject, ManagedObjectsController, Contributor,
    ContributorIdentity, ContributorCategory, Snapshot, SnapshottedObject, SnapshottedAttachment,
    SnapshotsController,
  }

  -- The class MPContributor, whose pointers are not said to be non-null: nil is `none`.
  pub record ContributorClass : Type 0 where
    pub category : Contributor → Getter p (Option ContributorCategory)
    pub set_category : Contributor → Option ContributorCategory → Effect p
    pub role : Contributor → Getter p (Option String)
    pub set_role : Contributor → Option String → Effect p
    pub is_me : Contributor → Getter p Bool
    pub set_is_me : Contributor → Bool → Effect p
    pub priority : Contributor → Getter p ℤ
    pub positive_integral_priority : Contributor → Getter p ℤ
    pub contribution : Contributor → Getter p (Option String)
    pub set_contribution : Contributor → Option String → Effect p
    pub address_book_ids : Contributor → Getter p (Option (List Any))
    pub set_address_book_ids : Contributor → Option (List Any) → Effect p
    pub thumbnail_image : Contributor → Getter p (Option Image)
    pub identities : Contributor → Getter p (Option (List Any))
    pub app_invitation_date : Contributor → Getter p (Option Date)
    pub set_app_invitation_date : Contributor → Option Date → Effect p
    pub is_first_contributor : Contributor → Getter p Bool
    pub is_last_contributor : Contributor → Getter p Bool
    pub previous_contributor : Contributor → Getter p (Option Contributor)
    pub next_contributor : Contributor → Getter p (Option Contributor)
    pub compare : Contributor → Option Contributor → Getter p Ordering
    pub full_name : Contributor → Getter p (Option String)
    pub set_full_name : Contributor → Option String → Effect p

  -- The class MPContributorIdentity.
  pub record ContributorIdentityClass : Type 0 where
    pub contributor : ContributorIdentity → Getter p (Option Contributor)
    pub set_contributor : ContributorIdentity → Option Contributor → Effect p
    pub identifier : ContributorIdentity → Getter p (Option String)
    pub set_identifier : ContributorIdentity → Option String → Effect p
    pub namespace : ContributorIdentity → Getter p (Option String)
    pub set_namespace : ContributorIdentity → Option String → Effect p

  -- The class MPContributorsController. The handler of a move is given the contributor with its old
  -- and its new index.
  pub record ContributorsControllerClass : Type 0 where
    pub me : ManagedObjectsController → Getter p Contributor
    pub existing_me : ManagedObjectsController → Getter p (Option Contributor)
    pub all_contributors : ManagedObjectsController → Getter p (List Contributor)
    pub all_authors : ManagedObjectsController → Getter p (List Contributor)
    pub all_editors : ManagedObjectsController → Getter p (List Contributor)
    pub all_translators : ManagedObjectsController → Getter p (List Contributor)
    pub contributor_comparator : ManagedObjectsController → Getter p (Any → Any → Getter p Ordering)
    pub set_contributor_comparator :
        ManagedObjectsController → (Any → Any → Getter p Ordering) → Effect p
    pub contributor_with_address_book_id :
        ManagedObjectsController → String → Action p (Option Contributor)
    pub contributors_with_full_name :
        ManagedObjectsController → String → Action p (List Contributor)
    pub refresh_priorities :
        (receiver : Class) → List Contributor → Action p (ℕ × Option (List Any))
    pub move_contributors :
        (receiver : Class)
        → (contributors universe_of_contributors : List Any) → (to_index : ℕ)
        → (index_change_handler : Option (Contributor → (old_index new_index : ℕ) → Effect p))
        → Effect p

  -- The class MPContributorIdentitiesController.
  pub record ContributorIdentitiesControllerClass : Type 0 where
    pub identities_for_contributor : ManagedObjectsController → Contributor → Action p (List Any)
    pub identities_with_identifier : ManagedObjectsController → String → Action p (List Any)
    pub contributors_with_identifier : ManagedObjectsController → String → Action p (List Any)
    pub contributors_with_identity :
        ManagedObjectsController → ContributorIdentity → Action p (List Any)

  -- The classes MPSnapshot, MPSnapshottedObject and MPSnapshottedAttachment.
  pub record SnapshotClasses : Type 0 where
    pub name : Snapshot → Getter p (Option String)
    pub timestamp : Snapshot → Getter p (Option Date)
    pub snapshot : SnapshottedObject → Getter p (Option Snapshot)
    pub snapshotted_object : SnapshottedObject → Getter p (Option ManagedObject)
    pub snapshotted_revision_id : SnapshottedObject → Getter p (Option String)
    pub snapshotted_properties : SnapshottedObject → Getter p (Option (Dictionary String Any))
    pub snapshotted_attachment_shas : SnapshottedObject → Getter p (Option (List Any))
    pub snapshotted_attachments : SnapshottedObject → Getter p (Option (List Any))
    pub snapshotted_object_class : SnapshottedObject → Getter p (Option Class)
    pub init_with_snapshots_controller :
        SnapshotsController → Attachment → Attempt p (Option SnapshottedAttachment)
    pub sha : SnapshottedAttachment → Getter p (Option String)
    pub content_type : SnapshottedAttachment → Getter p (Option String)
    pub attachment : SnapshottedAttachment → Getter p (Option Attachment)
    pub snapshot_of_attachment : SnapshottedAttachment → Getter p (Option Snapshot)
