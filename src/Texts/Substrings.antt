-- ===== src/Texts/Substrings.antt =====
-- Cutting a string at another string, and to a length.
use feather.Common.{nat_eq, string_eq, list_eq, List}
