-- ===== src/Commands/Json/Ordered.antt =====
-- The order of the keys in toJSON of internal/commands/generate.go.
use go_bricks_openapi.Prelude.{String, ◌≡◌, inl, inr, List, [], ◌∷◌, arith}
use go_bricks_openapi.Commands.Monad.{Result, done, Result-cases}
use go_bricks_openapi.Commands.Json.{
  Node, node, mapping_node, Nodes, no_node, and_node, value_of, Json, object, Members, no_member,
  and_member, yaml_node_to_json_value, json_members,
}

-- The texts of the keys of a mapping: every second node, if another follows it.
pub key_texts : Nodes → List String
key_texts no_node = []
key_texts (and_node k no_node) = []
key_texts (and_node k (and_node n ns)) = value_of k ∷ key_texts ns

pub member_keys : {V : Type 0} → Members V → List String
member_keys no_member = []
member_keys (and_member k j ms) = k ∷ member_keys ms

module _ {V : Type 0} (decode : Node → Result V) where
  json_members-keys :
      (ns : Nodes) (ms : Members V)
      → json_members decode ns ≡ done ms
      → member_keys ms ≡ key_texts ns
  unfolding yaml_node_to_json_value member_keys key_texts
  json_members-keys no_node ms h = ground (arith)
  json_members-keys (and_node k no_node) ms h = ground (arith)
  json_members-keys (and_node k (and_node n ns)) ms h =
      elim (Result-cases (yaml_node_to_json_value decode n)) [
        | inr (e, bad) ↦ ground (arith, bad)
        | inl (j, good) ↦ elim (Result-cases (json_members decode ns)) [
          | inr (e, bad) ↦ ground (arith, good, bad)
          | inl (rest, more) ↦ ground (arith, good, more, json_members-keys ns rest more)
        ]
      ]

  -- A mapping that is converted becomes an object with its keys, in their order.
  pub yaml_node_to_json_value-keys :
      (value tag : String) (ns : Nodes) (j : Json V)
      → yaml_node_to_json_value decode (node mapping_node value tag ns) ≡ done j
      → (ms : Members V) × (j ≡ object ms) × (member_keys ms ≡ key_texts ns)
  unfolding yaml_node_to_json_value
  yaml_node_to_json_value-keys value tag ns j h = elim (Result-cases (json_members decode ns)) [
    | inr (e, bad) ↦ ground (arith, bad)
    | inl (ms, good) ↦ (ms, ground (arith, good), json_members-keys ns ms good)
  ]
