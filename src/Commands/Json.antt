-- ===== src/Commands/Json.antt =====
-- toJSON of internal/commands/generate.go: the walk of the ordered YAML tree. yaml.Unmarshal,
-- Node.Decode and json.MarshalIndent of the result are parameters.
pub mod Ordered
use go_bricks_openapi.Prelude.{ℕ, String, Option, none, some, List, [], ◌∷◌}
use go_bricks_openapi.Prelude.Int.{pos}
use go_bricks_openapi.Go.Strconv.{itoa}
use go_bricks_openapi.Commands.Monad.{Result, done, failed, ◌<>◌}

-- yaml.Kind: `other_kind` is every number that the switch does not list.
pub data NodeKind : Type 0 where
  document_node sequence_node mapping_node scalar_node : NodeKind
  other_kind : ℕ → NodeKind

mutual
  -- Kind, Value and Content of a yaml.Node, with what else Decode reads of it.
  pub data Node : Type 0 where
    node : NodeKind → String → String → Nodes → Node

  pub data Nodes : Type 0 where
    no_node : Nodes
    and_node : Node → Nodes → Nodes

abbrev pub value_of : Node → String
value_of (node k v tag c) = v

mutual
  -- The values that yamlNodeToJSONValue returns; an object is an *orderedMap.
  pub data Json (V : Type 0) : Type 0 where
    null : Json V
    object : Members V → Json V
    array_of : Elements V → Json V
    decoded : V → Json V

  pub data Members (V : Type 0) : Type 0 where
    no_member : Members V
    and_member : String → Json V → Members V → Members V

  pub data Elements (V : Type 0) : Type 0 where
    no_element : Elements V
    and_element : Json V → Elements V → Elements V

module _ {V : Type 0} (decode : Node → Result V) where
  unfoldable mutual
    pub yaml_node_to_json_value : Node → Result (Json V)
    yaml_node_to_json_value (node document_node v tag no_node) = done null
    yaml_node_to_json_value (node document_node v tag (and_node n ns)) = yaml_node_to_json_value n
    yaml_node_to_json_value (node mapping_node v tag c) = elim (json_members c) [
      | done ms ↦ done (object ms)
      | failed e ↦ failed e
    ]
    yaml_node_to_json_value (node sequence_node v tag c) = elim (json_elements c) [
      | done es ↦ done (array_of es)
      | failed e ↦ failed e
    ]
    yaml_node_to_json_value (node scalar_node v tag c) = elim (decode (node scalar_node v tag c)) [
      | done d ↦ done (decoded d)
      | failed e ↦ failed e
    ]
    yaml_node_to_json_value (node (other_kind k) v tag c) =
        failed ("unsupported yaml node kind " <> itoa (pos k))

    -- The loop over the pairs of a mapping; a last node without a partner is not visited.
    pub json_members : Nodes → Result (Members V)
    json_members no_node = done no_member
    json_members (and_node k no_node) = done no_member
    json_members (and_node k (and_node n ns)) = elim (yaml_node_to_json_value n) [
      | failed e ↦ failed e
      | done j ↦ elim (json_members ns) [
        | failed e ↦ failed e
        | done ms ↦ done (and_member (value_of k) j ms)
      ]
    ]

    pub json_elements : Nodes → Result (Elements V)
    json_elements no_node = done no_element
    json_elements (and_node n ns) = elim (yaml_node_to_json_value n) [
      | failed e ↦ failed e
      | done j ↦ elim (json_elements ns) [ failed e ↦ failed e | done es ↦ done (and_element j es) ]
    ]

-- What toJSON calls of the two libraries. `Value` is what a scalar decodes to.
pub record Encoders : Type 1 where
  pub Value : Type 0
  pub unmarshal : String → Result Node
  pub decode : Node → Result Value
  pub marshal_indent : Json Value → Result String

unfoldable pub to_json : Encoders → String → Result String
to_json enc yaml_spec = elim (enc.unmarshal yaml_spec) [
  | failed e ↦ failed e
  | done root ↦ elim (yaml_node_to_json_value enc.decode root) [
    | failed e ↦ failed e
    | done doc ↦ elim (enc.marshal_indent doc) [
      | failed e ↦ failed e
      | done text ↦ done (text <> "\n")
    ]
  ]
]
