-- ===== src/Tests/Sample.antt =====
-- A library over the integers, and a project of three routes, two of which have the same handler.
use Prim.Native.Nat.{Ordering}
use go_bricks_openapi.Prelude.{String, true, false, none, some, List, [], ◌∷◌, ◌==◌, if◌then◌else◌}
use go_bricks_openapi.Prelude.Int.{ℤ, pos, ltb_ℤ, eqb_ℤ}
use go_bricks_openapi.Go.{Go}
use go_bricks_openapi.Go.Strconv.{parse_int, itoa}
use go_bricks_openapi.Models.{
  ShapeKind, TypeShape, type_shape, no_shape, ptr, no_inst, no_struct, Fields, end, and_field,
  FieldTags, FieldInfo, field_info, TypeInfo, Route, Project,
}
use go_bricks_openapi.Generate.{OpenApiGenerator}

abbrev order : ℤ → ℤ → Ordering
order a b = if ltb_ℤ a b then Ordering.lt else if eqb_ℤ a b then Ordering.eq else Ordering.gt

abbrev pub sample_go : Go
sample_go = record {
  Float = ℤ;
  float_of = λ n. n;
  compare = order;
  less = ltb_ℤ;
  equal = eqb_ℤ;
  not_finite = λ n. false;
  parse_float = parse_int;
  print_float = itoa;
  match_string = λ pattern s. true;
  parses_time = λ layout s. true;
  decodes_base64 = λ s. true;
  status_text = λ n. if eqb_ℤ n (pos 404) then "Not Found" else "";
  to_upper = λ s. s;
  to_lower = λ s. s;
  trim_space = λ s. s;
  lower_cut = λ s. s;
  upper_cut = λ s. s;
}

abbrev pub leaf : ShapeKind → String → TypeShape
leaf k n = type_shape k n no_shape no_shape no_inst no_struct

abbrev pub int_shape : TypeShape
int_shape = leaf ShapeKind.primitive "int"

abbrev pub text_shape : TypeShape
text_shape = leaf ShapeKind.primitive "string"

abbrev pub item_shape : TypeShape
item_shape = leaf ShapeKind.ref "Item"

abbrev pub over : ShapeKind → TypeShape → TypeShape
over k s = type_shape k "" no_shape (ptr s) no_inst no_struct

abbrev pub field_tags : String → String → FieldTags
field_tags n param = record {
  name = n;
  json_name = n;
  json_string = false;
  param_type = param;
  param_name = if param == "" then "" else n;
  required = true;
  description = "";
  example = "7";
  raw_validation = "";
  constraints = [];
  element_constraints = [];
}

abbrev pub count_field : FieldInfo
count_field = field_info (field_tags "count" "") int_shape no_shape

abbrev pub items_field : FieldInfo
items_field = field_info (field_tags "items" "") (over ShapeKind.slice item_shape) no_shape

abbrev pub item_field : FieldInfo
item_field = field_info (field_tags "item" "") item_shape no_shape

abbrev pub order_fields : Fields
order_fields = and_field count_field (and_field items_field (and_field item_field end))

abbrev pub named_type : String → Fields → TypeInfo
named_type n fs = record {
  name = n;
  package_name = "orders";
  fields = fs;
  jose = false;
  no_content = false;
  shape = no_shape;
  resolution = no_shape;
}

abbrev pub order_type : TypeInfo
order_type = named_type "Order" order_fields

abbrev pub item_type : TypeInfo
item_type = named_type "Item" (and_field count_field end)

abbrev pub route : String → String → Route
route m path = record {
  method = m;
  path = path;
  handler_name = "handle";
  operation_id = "";
  summary = "";
  description = "";
  tag_names = [];
  request = none;
  response = some order_type;
  module_name = "orders";
  package_name = "orders";
  success_status = pos 0;
  raw_response = false;
  is_public = false;
  error_statuses = pos 404 ∷ [];
}

abbrev pub list_route : Route
list_route = route "GET" "/orders"

abbrev pub get_route : Route
get_route = route "GET" "/orders/{id}"

abbrev pub sample_routes : List Route
sample_routes = list_route ∷ get_route ∷ list_route ∷ []

abbrev pub sample_project : Project
sample_project = record {
  name = "shop";
  description = "";
  version = "2.0.0";
  modules =
      record { name = "orders"; package_name = "orders"; description = ""; routes = sample_routes }
      ∷ [];
  types = some (("Order", some order_type) ∷ ("Item", some item_type) ∷ []);
}

abbrev pub sample_generator : OpenApiGenerator
sample_generator = record {
  title = "";
  version = "";
  description = "";
  servers = "" ∷ "https://shop.example" ∷ [];
  license = none;
  tenant_auth = true;
  tenant_header = "X-Tenant-ID";
}
