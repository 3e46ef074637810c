-- ===== src/Lib.antt =====
-- Feather: a library for packages of documents on Couchbase Lite, in Objective-C. The paths below are
-- those of the repository.
--
-- Common has what the modules share: numbers, tests, equality as an instance, and lists by native
-- numbers. Foundation has what the sources use of NSArray and of exceptions: an assertion that fails and
-- an NSException are results (`raised`) like others. Json has the values of properties. Couch is an
-- interface: the state of CBLModel and CBLDocument and the laws that Feather relies on, none of whose
-- code is in the repository; Couch.Store is one instance of it, for the tests.
--
-- ManagedObject models Feather/Sources/Model/MPManagedObject.m over every Couch. Write is
-- `setValue:ofProperty:`; Save is `save:`, `deleteDocument:`, the timestamps and the CloudKit change
-- tag, with the notifications that MPManagedObjectsController posts after them; Share is sharing,
-- moderation and locking. An `Object` is the state of one object with the notifications posted about it,
-- the newest first.
--
-- Controller models parts of Feather/Sources/Model Controllers/MPManagedObjectsController.m: Conflicts
-- is `resolveConflictingRevisionsForObject:error:`, Bundled is
-- `loadBundledObjectsFromResource:withExtension:matchedToObjects:dataChecksumMetadataKey:error:`,
-- Changes is `didChangeDocument:forObject:source:`, and Lookup is the cache of objects,
-- `objectWithIdentifier:` and `managedObjectsForQueryEnumerator:`, Imports makes objects from JSON (with the initializer and `saveModels:error:` of MPManagedObject.m),
-- Search is `handleSearchCommand:`, and Views are the map blocks of two views. Documents models
-- Feather/Sources/Categories/NSDictionary+MPManagedObjectExtensions.m, the check that a dictionary is
-- that of a managed object.
--
-- Contributors models Feather/Sources/Model Controllers/MPContributorsController.m and
-- Feather/Sources/Model/MPContributor.m: the priorities and the order of contributors, and in Claim who
-- of them is the user, by the identities that are saved in the package.
--
-- Arrays, Texts, Dictionaries, Dates and Trees model Feather/Sources/Categories/NSArray+MPExtensions.m,
-- NSString+MPExtensions.m, NSData+MPExtensions.m, NSDictionary+MPExtensions.m and NSDate+MPExtensions.m
-- beside it, and
-- Feather/Sources/Utilities/MPTreeItemUtility.m. A character is its code, a tree item a number.
--
-- Interfaces has what the headers declare, with a record of operations for each class, protocol and
-- category, or for a part of a large one, and a data type for each enumeration: Package, Database and
-- Document are those of Feather/Sources/Database Packages and of the document, Object, Embedded,
-- Contributor (with snapshots) and Tree those of Feather/Sources/Model, Controller that of
-- MPManagedObjectsController.h, Notifications and Foundation those of Feather/Sources/Categories, Xml that
-- of FeatherAppKitExtensions/NSXMLElement+MPExtensions.h, and Exceptions is Utilities/MPException.h. The
-- types that a header names and does not declare are the fields of `Platform` in Base; a method takes the
-- state of the process and the disk and gives it back. ManagedObject.Share.Moderation relates the model of
-- sharing to the moderation states of the header.
--
-- Objects models the inline functions of Feather/Sources/Categories/NSObject+MPExtensions.h and, of
-- NSObject+MPExtensions.m, waiting in a run loop and the dispatching functions; Embedding the walks along the
-- objects that embed an object, of Feather/Sources/Model/MPEmbeddedObject.m; Notifications the names of
-- notifications, of Feather/Sources/Categories/NSNotificationCenter+MPManagedObjectExtensions.m; Texts.Ranges
-- the macros of NSString+MPExtensions.h. Bindings models Bindings/Bindings OSX Framework/MPObjectiveCTokens.h
-- and .m, the declarations that the analyzer of headers finds, and the unit that
-- Bindings/Bindings/MPObjectiveCAnalyzer.m makes of them.
--
-- Packages models parts of Feather/Sources/Database Packages. Of MPDatabasePackageController.m, Registry is
-- the registry of open packages, whose controllers are numbers; Lookup the controller of a class with the
-- dictionary that remembers it; Copies the temporary copy of a package, with what NSFileManager answers as a
-- parameter; Snapshots making snapshots and restoring them, with what MPSnapshotsController.m and
-- MPSnapshot.m do for that (Taking and Restored); Databases closing and the errors that synchronising,
-- pushing and pulling collect. Of MPDatabase.m, Revisions is the validation of revisions, and Replications
-- the sets of current pushes and pulls, of which Roles says what each replication is and Runs follows a run.
--
-- Three parts run on fuel. Trees: a round of its loop takes one item off the stack, so that as many rounds
-- as there are items below the item are enough. Objects: a round is one turn of the run loop, and as many as
-- there are up to the timer are enough. Embedding: the loop of `databaseForModelProperty:`, for which
-- no number of rounds may be enough. All other loops are structural.
--
-- Threads are not modelled, but for the timer of Objects, which fires in some round and in some order with
-- the other events of it: the dispatch queue serialises the calls. Nor are logging, AppKit, scripting,
-- the CloudKit services in Swift, the copies of other projects' code under External, and the replication
-- that Couchbase Lite does.
pub mod Common
pub mod Foundation
pub mod Contributors
pub mod Json
pub mod Couch
pub mod ManagedObject
pub mod Arrays
pub mod Controller
pub mod Trees
pub mod Dates
pub mod Texts
pub mod Documents
pub mod Dictionaries
pub mod Interfaces
pub mod Bindings
pub mod Embedding
pub mod Objects
pub mod Notifications
pub mod Packages
