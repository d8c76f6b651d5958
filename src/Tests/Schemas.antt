-- ===== src/Tests/Schemas.antt =====
-- Properties of fields.
use go_bricks_openapi.Prelude.{In, ◌↔◌, ◌≡◌, ◌≢◌, some, refl, ◌⊎◌, String}
use go_bricks_openapi.Prelude.Int.{ℤ, pos}
use go_bricks_openapi.Document.{Value, no_keywords, keywords, plain}
use go_bricks_openapi.Schemas.Examples.{apply_example}
use go_bricks_openapi.Schemas.Leaves.{ref_path}
use go_bricks_openapi.Schemas.Typing.{field_property, object_properties}
use go_bricks_openapi.Schemas.Fits.Bounds.{Fits, Reads}
use go_bricks_openapi.Schemas.Fits.{apply_example-Fits}
use go_bricks_openapi.Schemas.Alone.{ref_of, field_property-alone}
use go_bricks_openapi.Operations.Payloads.{typed}
use go_bricks_openapi.Tests.Sample.{sample_go, item_field, order_fields}
use go_bricks_openapi.Schemas.Required.{names, SomeGives, SomeRequires, object_properties-names}

abbrev raw_seven : String
raw_seven = "7"

apply_example-Fits_example :
    ((keywords (apply_example sample_go (typed "integer") "7")).example ≡ some (Value.int (pos 7)))
    ↔ ((raw_seven ≢ "")
        × ((keywords (typed {F = ℤ} "integer")).ref ≡ "")
        × Reads sample_go "7" (Value.int (pos 7))
        × Fits sample_go (keywords (typed "integer")) (Value.int (pos 7)))
apply_example-Fits_example =
    apply_example-Fits sample_go (typed "integer") "7" (Value.int (pos 7)) refl

field_property-alone_example :
    (ref_of sample_go (field_property sample_go item_field) ≡ "")
    ⊎ ((n : String) × (field_property sample_go item_field
          ≡ plain (record no_keywords { ref = ref_path n })))
field_property-alone_example = field_property-alone sample_go item_field

object_properties-names_example :
    (In "count" (names (object_properties sample_go order_fields).0)
      ↔ SomeGives "count" order_fields)
    × (In "count" (object_properties sample_go order_fields).1 ↔ SomeRequires "count" order_fields)
object_properties-names_example = object_properties-names sample_go order_fields "count"
