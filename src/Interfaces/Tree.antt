-- ===== src/Interfaces/Tree.antt =====
-- Items of a tree and the sections that are such items: MPTreeItem.h, MPVirtualSection.h,
-- MPVirtualSection+Protected.h, MPRootSection.h and MPObjectWrappingSection.h of Feather/Sources/Model.
use Prim.Native.String.{String}
use feather.Common.{ℕ, Bool, Option, List}
use feather.Interfaces.Base.{ℤ, pos, negsuc, Platform, Getter, Effect, Action, Dictionary}

-- MPOptionalTreeItemState: AppKit's NSOnState, NSOffState and NSMixedState are 1, 0 and -1.
pub data ItemState : Type 0 where
  on : ItemState
  off : ItemState
  mixed : ItemState

module _ (p : Platform) where
  open p use {
    Any, Class, Image, PackageController, ManagedObject, TreeItem, RootSection, VirtualSection,
    ObjectWrappingSection,
  }

  -- The protocol MPTreeItem.
  pub record TreeItemProtocol : Type 0 where
    pub title : TreeItem → Getter p String
    pub set_title : TreeItem → String → Effect p
    pub parent : TreeItem → Getter p (Option TreeItem)
    pub children : TreeItem → Getter p (List TreeItem)
    pub siblings : TreeItem → Getter p (List TreeItem)
    pub child_count : TreeItem → Getter p ℕ
    pub has_children : TreeItem → Getter p Bool
    pub is_editable : TreeItem → Getter p Bool
    pub is_titled : TreeItem → Getter p Bool
    pub is_optional : TreeItem → Getter p Bool
    pub in_edit_mode : TreeItem → Getter p Bool
    pub set_in_edit_mode : TreeItem → Bool → Effect p
    pub priority : TreeItem → Getter p ℤ
    pub package_controller : TreeItem → Getter p (Option PackageController)
    pub identifier : TreeItem → Getter p (Option String)
    pub save : TreeItem → Action p Bool

  -- The protocol MPOptionalTreeItem. An NSCellStateValue is an NSInteger.
  pub record OptionalTreeItemProtocol : Type 0 where
    pub set_state : TreeItem → ItemState → (in_context_of : Any) → Effect p
    pub state : TreeItem → (in_context_of : Any) → Getter p ItemState
    pub cell_state_value : TreeItem → (in_context_of : Any) → Getter p ℤ

  -- The class MPVirtualSection.
  pub record VirtualSectionClass : Type 0 where
    pub parent : VirtualSection → Getter p (Option TreeItem)
    pub package_controller : VirtualSection → Getter p (Option PackageController)
    pub represented_object_class : VirtualSection → Getter p (Option Class)
    pub identifier : VirtualSection → Getter p String
    pub represented_objects : VirtualSection → Getter p (List TreeItem)
    pub init_with_package_controller :
        PackageController → (parent : TreeItem) → (identifier : String) → Action p VirtualSection
    pub thumbnail_image_name : VirtualSection → Getter p String
    pub thumbnail_image : VirtualSection → Getter p Image

  -- The state that MPVirtualSection and MPObjectWrappingSection keep from other classes.
  pub record VirtualSectionState : Type 0 where
    pub parent : Option TreeItem
    pub cached_thumbnail_image : Option Image
    pub cached_children : Option (List TreeItem)
    pub cached_represented_objects : Option (List Any)
    pub children_cache_is_stale : Bool
    pub represented_objects_cache_is_stale : Bool

  pub record ObjectWrappingSectionState : Type 0 where
    pub identifier : String
    pub extended_title : Option String
    pub represented_object_class : Option Class
    pub represented_objects : List Any
    pub observed_managed_object_classes : List Any

  -- The class MPRootSection.
  pub record RootSectionClass : Type 0 where
    pub package_controller : RootSection → Getter p (Option PackageController)
    pub init_with_package_controller : PackageController → Action p RootSection
    pub represented_objects : RootSection → Getter p (List TreeItem)
    pub managed_object_class : (receiver : Class) → Getter p Class
    pub thumbnail_image_name : RootSection → Getter p String
    pub thumbnail_image : RootSection → Getter p Image
    pub represented_object_class : RootSection → Getter p Class
    pub object_with_referable_dictionary_representation :
        (receiver : Class) → Dictionary String Any → Getter p (Option Any)

  -- The class MPObjectWrappingSection.
  pub record ObjectWrappingSectionClass : Type 0 where
    pub extended_title : ObjectWrappingSection → Getter p (Option String)
    pub wrapped_object : ObjectWrappingSection → Getter p (Option ManagedObject)
    pub wrapped_children : ObjectWrappingSection → Getter p (List TreeItem)
    pub set_wrapped_children : ObjectWrappingSection → List TreeItem → Effect p
    pub init_with_parent :
        (parent : TreeItem) → ManagedObject → (identifier : String) → Action p ObjectWrappingSection
    pub array_of_wrapped_objects :
        (receiver : Class)
        → List Any
        → (parent : TreeItem) → (identifier_prefix : String) → Action p (List Any)

-- The values of MPOptionalTreeItemState.
pub item_state_code : ItemState → ℤ
item_state_code on = pos 1
item_state_code off = pos 0
item_state_code mixed = negsuc 0
