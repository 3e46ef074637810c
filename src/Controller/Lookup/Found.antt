-- ===== src/Controller/Lookup/Found.antt =====
-- What a lookup finds.
use Prim.Native.String.{String}
use feather.Common.{nat_eq, list_eq, string_eq}
use feather.Controller.Lookup.{Controller}
