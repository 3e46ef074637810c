-- ===== src/Interfaces/Notifications.antt =====
-- The categories on NSNotificationCenter and NSNotification, and the protocols of observers:
-- Feather/Sources/Categories/NSNotificationCenter+MPManagedObjectExtensions.h.
use Prim.Native.String.{String}
use feather.Common.{ℕ, Option, List}
use feather.Interfaces.Base.{Platform, Getter, Effect, Dictionary}
use feather.ManagedObject.{Change as ChangeType, add, update, remove}

-- The values of MPChangeType.
pub change_code : ChangeType → ℕ
change_code add = 0
change_code update = 1
change_code remove = 2

-- MPReplicationEventType, of persistent replications.
pub data ReplicationEvent : Type 0 where
  pull_progress_updated : ReplicationEvent
  pull_complete : ReplicationEvent
  push_progress_updated : ReplicationEvent
  push_complete : ReplicationEvent

pub replication_event_code : ReplicationEvent → ℕ
replication_event_code pull_progress_updated = 0
replication_event_code pull_complete = 1
replication_event_code push_progress_updated = 2
replication_event_code push_complete = 3

module _ (p : Platform) where
  open p use {
    Any, Class, Notification, NotificationCenter, Database, ManagedObject, DatabaseChangeObserver,
    ObjectChangeObserver, RecentChangeObserver, SharingObserver, SelectionObserver,
  }

  -- MPRecentChangeObserverCallback and MPChangeObserverCallback; nil is `none`.
  abbrev pub RecentCallback : Type 0
  RecentCallback = Option (RecentChangeObserver → Notification → Effect p)

  abbrev pub PastCallback : Type 0
  PastCallback = Option (ObjectChangeObserver → Notification → Effect p)

  -- The category MPManagedObjectExtensions on NSNotificationCenter.
  pub record ChangeNotifications : Type 0 where
    pub add_recent_change_observer : NotificationCenter → RecentChangeObserver → Class → Effect p
    pub add_recent_change_observer_with_callbacks :
        NotificationCenter
        → RecentChangeObserver
        → Class
        → (has_added has_updated has_removed : RecentCallback) → Effect p
    pub add_past_change_observer : NotificationCenter → ObjectChangeObserver → Class → Effect p
    pub add_past_change_observer_with_callbacks :
        NotificationCenter
        → ObjectChangeObserver
        → Class
        → (did_add did_update did_remove : PastCallback) → Effect p
    pub notification_name_for_recent_change : ChangeType → Class → Getter p String
    pub notification_name_for_past_change : ChangeType → Class → Getter p String
    pub add_object_selection_change_observer : NotificationCenter → SelectionObserver → Effect p
    pub post_for_changing_master_selection_to_single_object :
        NotificationCenter → Any → Dictionary String Any → Effect p
    pub post_for_changing_detail_selection_to_single_object :
        NotificationCenter → Any → Dictionary String Any → Effect p
    pub post_for_changing_master_selection_to_multiple_objects :
        NotificationCenter → List Any → Dictionary String Any → Effect p
    pub post_for_changing_detail_selection_to_multiple_objects :
        NotificationCenter → List Any → Dictionary String Any → Effect p
    pub managed_object_notification_name_dictionary : Getter p (Dictionary Any Any)

  -- The categories MPDatabaseExtensions on NSNotificationCenter and MPManagedObjectExtensions on
  -- NSNotification.
  pub record DatabaseNotifications : Type 0 where
    pub add_observer_for_replication_of_database :
        NotificationCenter → DatabaseChangeObserver → Database → Effect p
    pub notification_name_for_replication_event_type : ReplicationEvent → Getter p String
    pub post_notification_for_sharing_managed_object : NotificationCenter → ManagedObject → Effect p
    pub add_managed_object_sharing_observer : NotificationCenter → SharingObserver → Effect p
    pub managed_object : Notification → Getter p ManagedObject

  -- MPDatabaseReplicationObserver, MPManagedObjectSharingObserver and MPObjectSelectionObserver, whose
  -- methods are optional: one that is not there is `none`.
  pub record ObserverProtocols : Type 0 where
    pub did_complete_persistent_pull_replication : DatabaseChangeObserver → Notification → Effect p
    pub did_complete_persistent_push_replication : DatabaseChangeObserver → Notification → Effect p
    pub did_update_progress_of_persistent_pull_replication :
        DatabaseChangeObserver → Notification → Effect p
    pub did_update_progress_of_persistent_push_replication :
        DatabaseChangeObserver → Notification → Effect p
    pub did_share_managed_object : SharingObserver → Notification → Effect p
    pub did_change_master_selection_to_single_object :
        SelectionObserver → Option (Notification → Effect p)
    pub did_change_detail_selection_to_single_object :
        SelectionObserver → Option (Notification → Effect p)
    pub did_change_master_selection_to_multiple_objects :
        SelectionObserver → Option (Notification → Effect p)
    pub did_change_detail_selection_to_multiple_objects :
        SelectionObserver → Option (Notification → Effect p)
