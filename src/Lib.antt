-- ===== src/Lib.antt =====
-- The program go-bricks-openapi: how a Go service becomes an OpenAPI 3.0 document, and what its commands
-- do around that.
--
-- The program reads a go-bricks service (internal/analyzer), builds a project model of its modules,
-- routes and types (internal/models/models.go), and turns that model into a document
-- (internal/generator/openapi.go and internal/generator/constraints.go). The commands generate and
-- doctor (internal/commands) run the analyzer, count its warnings, check the environment and write the
-- file. This library models the generator and the commands, and of the analyzer the decisions that it
-- takes on fields, tags, directives, paths and resolved shapes.
--
-- The parts, and the file or folder of each:
--
-- Models: the structs of internal/models/models.go. A pointer is a type with a case for nil; a shape
-- is a finite tree, as the analyzer cuts every cycle by a leaf of the kind recursive.
-- Document: the structs of internal/generator/openapi.go that are written as YAML. A property is split
-- into its plain keywords (Keywords) and its subschemas; a value of the type any is a Value.
-- Shapes: the predicates on shapes (stripPointers, isSequence, wellKnownShape, effectiveKind).
-- Constraints: constraints.go. Bounds has the constraint set and mergeNumeric, Rules and Scalars a handler per
-- rule, Tokens tokenizeOneOf, Sets sortedKeys and constraintsFor. A setter returns the new set, a
-- handler that returns false returns none. The other children hold proofs.
-- Schemas: the property of a field (fieldProperty, setTypeAndFormat, setInlineObject,
-- objectProperties), its example (applyExample, coerceExample) and its validation. A property that the
-- code changes in place is passed in and returned. setTypeAndFormat and fieldProperty call each other:
-- Schemas/Typing is one mutual block along the shape, and Schemas/Field takes the call as an argument.
-- Routes: getAllRoutes, groupRoutesByPath, emittedRoutes, routeKey, assignOperationIDs.
-- Operations: buildOperation, its parameters, request body and responses, and buildPaths.
-- Components: referencedSchemaNames, createStandardSchemas, generateSchemasFromTypes and
-- routeTypeRegistry. A set of names is a list.
-- Generate: NewWithConfig, the sections of Generate and their composition.
-- Analyzer: Embed has the merge of a struct with its promoted fields (internal/analyzer/embed.go), Tags
-- the struct tags and Paths normalizePath (internal/analyzer/analyzer.go), Directive the //openapi:
-- comments (internal/analyzer/directive.go) with mergeErrorStatuses, Constructors the statuses of the
-- server constructors (internal/analyzer/constructors.go), Payload the test for a typed payload
-- (internal/analyzer/payload.go), Merge the merge of a type's build-tagged declarations
-- (internal/analyzer/resolution.go) and Binding the verdict on whether a parameter can be bound
-- (internal/analyzer/binding.go).
-- Commands: Stats and Unresolved have what is counted and listed, Compat the go-bricks version check,
-- Options and Json the options and the JSON form of the generate command, Generate its run and that of
-- validate, Doctor the run of doctor. A run is a function of a state, the files and the printed lines;
-- Monad has the actions, System the calls of the operating system and of the version libraries.
-- Go: the calls of the Go library. Prelude: shared tests, lists, dictionaries, 64-bit ints, the order
-- of texts and sorting. Tests: a sample project and the theorems at concrete inputs.
--
-- Numbers: an int is an integer of 64 bits; n + 1 and n - 1 on it wrap around (Prelude/Int). float64,
-- regular expressions, times, base64, Unicode case, status texts and the trimming of white space are
-- fields of the record Go in Go.antt, a parameter of every definition that needs them; nothing is
-- assumed of them. strconv on decimal integers and the splitting of texts are modelled in Go/Strconv
-- and Go/Strings. A text is a list of Unicode characters; lower_first and upper_first leave the cut of
-- a first character wider than a byte to a parameter. A Go map is an association list; where the code
-- visits a map without sorting it, the order of the list stands for the order of the visit.
--
-- Loops: every loop over a slice is recursion on a list. The loop of assignOperationIDs that numbers an
-- id has no bound in the code: here it has one round more than there are ids in use, which is enough,
-- since the ids it tries differ from each other. The printing of a number has the number itself as
-- fuel, as a round divides by ten. Each runs to its end in the theorems on Generate.
--
-- The commands take the analyzer's result, the YAML text of a document, the encoders and the validator
-- as parameters (Tools), and the system as another (System): the files are a state of any type. Where a
-- theorem needs to know what a file holds, it assumes that os.WriteFile without an error leaves the
-- text in the file, or that os.Remove without an error leaves no file; the tests give a system for
-- which this holds. The text that %q prints is written between quotes as it stands.
--
-- Not modelled: the walk of internal/analyzer over the syntax trees of go/ast (discovery of modules and
-- routes, resolution of names, scopes, bindings, Marshaler types), the index of the directives of all
-- files; cmd/go-bricks-openapi and the flags of Cobra; marshalYAMLSection and the YAML encoder with its
-- errors; a nil project, which Generate reads as an empty one; the syntax tree that an AnonymousStruct
-- keeps for the analyzer.
pub mod Prelude
pub mod Go
pub mod Models
pub mod Document
pub mod Shapes
pub mod Constraints
pub mod Schemas
pub mod Routes
pub mod Operations
pub mod Components
pub mod Generate
pub mod Analyzer
pub mod Commands
pub mod Tests
