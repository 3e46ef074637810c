-- ===== src/Interfaces/Xml.antt =====
-- The categories on NSXMLElement, NSString and NSXMLDocument:
-- FeatherAppKitExtensions/NSXMLElement+MPExtensions.h. MPTextContentOffset is an NSInteger.
use Prim.Native.String.{String}
use feather.Common.{ℕ, Bool, Option, List}
use feather.Interfaces.Base.{ℤ, pos, negsuc, Platform, Getter, Effect, Action, Attempt, Dictionary}

-- MPXMLNodeFilteringResult.
pub data FilteringResult : Type 0 where
  keep : FilteringResult
  collapse : FilteringResult
  discard : FilteringResult

pub filtering_code : FilteringResult → ℤ
filtering_code keep = pos 1
filtering_code collapse = pos 0
filtering_code discard = negsuc 0

module _ (p : Platform) where
  open p use {XmlNode, XmlElement, XmlDocument}

  -- MPXMLNodeFilter, MPFirstMatchingXMLElementTest, MPMatchingXMLElementsTest and MPXMLNodeVisitor. The
  -- third also says whether to stop.
  abbrev pub NodeFilter : Type 0
  NodeFilter = XmlNode → Action p FilteringResult

  abbrev pub FirstMatchingTest : Type 0
  FirstMatchingTest = XmlElement → Action p Bool

  abbrev pub MatchingTest : Type 0
  MatchingTest = XmlElement → Action p (Bool × Bool)

  abbrev pub NodeVisitor : Type 0
  NodeVisitor = XmlNode → Action p Bool

  -- Parsing, the text of an element, and its attribute `class`.
  pub record XmlTexts : Type 0 where
    pub element_from_html_string : String → Attempt p (Option XmlElement × Option XmlDocument)
    pub element_from_html_string_with_inner_elements :
        String → (x_paths : Option (List String)) → Attempt p (Option XmlElement × List XmlElement)
    pub element_from_string : String → Attempt p (Option XmlElement)
    pub inner_xml_string : XmlElement → Getter p String
    pub normalize_whitespace_within_descendants_named :
        XmlElement → (element_names : List String) → Attempt p Bool
    pub pretty_xml_string : XmlElement → Getter p String
    pub text_content_length : XmlElement → Getter p ℕ
    pub text_content_for_xml_string : String → Attempt p (Option String)
    pub text_content_length_for_xml_string : String → Attempt p ℕ
    pub text_content_offset_for_xml_string :
        String → (inner_element_x_path : String) → (inner_offset : ℤ) → Attempt p ℤ
    pub text_content_length_before_node : XmlElement → XmlNode → Getter p ℕ
    pub is_child : XmlElement → XmlNode → Getter p Bool
    pub is_descendant : XmlElement → XmlNode → Getter p Bool
    pub add_class : XmlElement → String → Action p Bool
    pub has_class : XmlElement → String → Getter p Bool
    pub has_id : XmlElement → Getter p Bool
    pub remove_class : XmlElement → String → Action p Bool
    pub set_attribute_named : XmlElement → (name value : String) → Effect p
    pub set_attributes_from_element : XmlElement → (source : XmlElement) → Effect p

  -- Searches and visits.
  pub record XmlSearches : Type 0 where
    pub child_elements : XmlElement → Getter p (List XmlElement)
    pub find_matching : XmlElement → FirstMatchingTest → Action p (Option XmlElement)
    pub find :
        XmlElement
        → (name id class_name : Option String)
        → (attribute_values : Option (Dictionary String String)) → Action p (Option XmlElement)
    pub find_by_name : XmlElement → String → Action p (Option XmlElement)
    pub find_all_by_names : XmlElement → List String → Action p (Option (List XmlElement))
    pub find_all_by_class : XmlElement → String → Action p (Option (List XmlElement))
    pub find_by_id : XmlElement → String → Action p (Option XmlElement)
    pub find_by_class : XmlElement → String → Action p (Option XmlElement)
    pub find_by_attribute_values :
        XmlElement → Dictionary String String → Action p (Option XmlElement)
    pub find_all_passing : XmlElement → MatchingTest → Action p (Option (List XmlElement))
    pub previous_element_sibling : XmlElement → Getter p (Option XmlElement)
    pub next_element_sibling : XmlElement → Getter p (Option XmlElement)
    pub contains_descendant_node : XmlElement → XmlNode → Getter p Bool
    pub common_ancestor_element : (first second : XmlElement) → Getter p (Option XmlElement)
    pub visit_all_nodes_in_subtree : XmlElement → NodeVisitor → Action p ℕ
    pub visit_nodes_in_subtree_starting_from :
        XmlElement → (start : XmlNode) → NodeVisitor → Action p ℕ

  -- Changes of the structure of an element.
  pub record XmlChanges : Type 0 where
    pub collapse_element : XmlElement → Effect p
    pub wrap_children : XmlElement → List XmlNode → (name : String) → Action p (Option XmlElement)
    pub delete_text_up_to_offset :
        XmlElement → ℤ → (from_beginning_of : Option XmlElement) → Action p ℕ
    pub delete_text_from_offset : XmlElement → ℤ → (to_end_of : Option XmlElement) → Action p ℕ
    pub inner_xml_element_at_x_path :
        XmlElement → (x_path : String) → Attempt p (Bool × Option XmlElement)
    pub enforce_explicit_preserved_space : XmlElement → Effect p
    pub normalize_whitespace : XmlElement → (allow_leading trailing : Bool) → Effect p
    pub remove_child : XmlElement → XmlNode → Action p ℕ
    pub replace_child_with_node : XmlElement → (node replacing : XmlNode) → Action p ℕ
    pub replace_child_with_nodes : XmlElement → XmlNode → List XmlNode → Action p ℕ
    pub split_at_inner_element_x_path :
        XmlElement → (x_path : String) → (offset : ℤ) → Attempt p (Option (List XmlElement))
    pub text_content_offset_for_inner_element : XmlElement → XmlElement → ℤ → Getter p ℤ
    pub text_content_offset_for_inner_element_at_x_path :
        XmlElement → (x_path : String) → ℤ → Attempt p ℤ
    pub filtering_attributes :
        XmlElement → (attribute_filter child_filter : NodeFilter) → Action p XmlElement
    pub filtering_descendant_elements :
        XmlElement
        → (allowed_element_names : List String) → (allowed_attribute_names : Option (List String))
        → Action p XmlElement

  -- The categories MPXMLExtensions on NSString and NSXMLDocument. The options are an
  -- NSXMLNodeOptions.
  pub record XmlExtensions : Type 0 where
    pub inner_xml_string_of : String → Getter p (Option String)
    pub pretty_xml_string_of : String → Getter p (Option String)
    pub removing_invalid_utf8_encoded_xml_characters : String → Getter p String
    pub escaping_unescaped_ampersands : String → Getter p String
    pub replacing_html_named_entities : String → Getter p String
    pub escaping_as_xml_attribute_value : String → Getter p String
    pub escaping_as_xml_text_content : String → Getter p String
    pub appears_to_contain_serialised_xml : String → Getter p Bool
    pub document_from_string : String → (options : ℕ) → Attempt p (Option XmlDocument)
    pub exterminate_doc_type_and_namespaces : XmlDocument → Action p ℕ
