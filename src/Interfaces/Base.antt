-- ===== src/Interfaces/Base.antt =====
-- What the headers' declarations stand on: NSInteger, the collections, and the types that they name
-- and do not declare, those of Foundation, AppKit, CouchbaseLite and of other headers.
use feather.Common.{ℕ, Option, List}

pub data ℤ : Type 0 where
  pos : ℕ → ℤ
  negsuc : ℕ → ℤ

-- The state of the process and of the disk is `World`. A reference to an object is a value of the
-- type of its class; what it refers to is in the world.
pub record Platform : Type 1 where
  pub World : Type 0
  pub Any : Type 0
  pub Class : Type 0
  pub Selector : Type 0
  pub Error : Type 0
  pub Url : Type 0
  pub Date : Type 0
  pub Bytes : Type 0
  pub Bundle : Type 0
  pub XmlNode : Type 0
  pub XmlElement : Type 0
  pub XmlDocument : Type 0
  pub Queue : Type 0
  pub Implementation : Type 0
  pub DatabaseChangeObserver : Type 0
  pub ObjectChangeObserver : Type 0
  pub RecentChangeObserver : Type 0
  pub SharingObserver : Type 0
  pub SelectionObserver : Type 0
  pub Image : Type 0
  pub Notification : Type 0
  pub NotificationCenter : Type 0
  pub Credential : Type 0
  pub CouchDatabase : Type 0
  pub CouchManager : Type 0
  pub CouchDocument : Type 0
  pub CouchRevision : Type 0
  pub CouchQuery : Type 0
  pub QueryEnumerator : Type 0
  pub QueryRow : Type 0
  pub Replication : Type 0
  pub FilterBlock : Type 0
  pub MapBlock : Type 0
  pub ReduceBlock : Type 0
  pub Attachment : Type 0
  pub Database : Type 0
  pub PackageController : Type 0
  pub PackageDelegate : Type 0
  pub ManagedObject : Type 0
  pub ManagedObjectsController : Type 0
  pub EmbeddedObject : Type 0
  pub EmbeddingObject : Type 0
  pub Contributor : Type 0
  pub ContributorIdentity : Type 0
  pub ContributorCategory : Type 0
  pub Snapshot : Type 0
  pub SnapshottedObject : Type 0
  pub SnapshottedAttachment : Type 0
  pub SnapshotsController : Type 0
  pub TreeItem : Type 0
  pub RootSection : Type 0
  pub VirtualSection : Type 0
  pub ObjectWrappingSection : Type 0
  pub TreeItemPool : Type 0
  pub Metadata : Type 0
  pub LocalMetadata : Type 0
  pub Draft : Type 0
  pub Document : Type 0
  pub WindowController : Type 0
  pub SharedPackageAdapter : Type 0

-- A property that is read (it may create or cache what it returns, so it too returns the world), a
-- method that changes the state, one that changes it and returns a value, and one that also fills an
-- `NSError **`. An NSSet is the list of its objects in some order.
abbrev pub Getter : Platform → Type 0 → Type 0
Getter p A = p.World → A × p.World

abbrev pub Effect : Platform → Type 0
Effect p = p.World → p.World

abbrev pub Action : Platform → Type 0 → Type 0
Action p A = p.World → A × p.World

abbrev pub Attempt : Platform → Type 0 → Type 0
Attempt p A = p.World → A × Option p.Error × p.World

abbrev pub Dictionary : Type 0 → Type 0 → Type 0
Dictionary K V = List (K × V)
