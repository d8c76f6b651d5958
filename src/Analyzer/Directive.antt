-- ===== src/Analyzer/Directive.antt =====
-- internal/analyzer/directive.go: the //openapi: directives above a route registration, and
-- mergeErrorStatuses of internal/analyzer/constructors.go. A comment carries its text and its
-- location, written file:line; a diagnostic is returned beside the result.
pub mod Statuses
pub mod Merged
pub mod Attached
use Prim.Native.Char.{Char, code}
use go_bricks_openapi.Prelude.{
  ℕ, suc, ◌+◌, ◌-◌, String, Bool, true, false, not, ◌&&◌, ◌||◌, Option, none, some, List, [], ◌∷◌,
  ◌++◌, ◌==◌, ltb, leb, eqb, is_empty, one_of, if◌then◌else◌,
}
use go_bricks_openapi.Prelude.Int.{ℤ, pos, leb_ℤ, ltb_ℤ, eqb_ℤ}
use go_bricks_openapi.Prelude.Dict.{Dict}
use go_bricks_openapi.Go.{Go}
use go_bricks_openapi.Go.Strconv.{atoi}
use go_bricks_openapi.Go.Strings.{str_cons, str_append, split, has_prefix}
use go_bricks_openapi.Models.{Route}

-- A result with the diagnostics that were raised for it.
abbrev pub Noted : Type 0 → Type 0
Noted A = A × List String

pub record Comment : Type 0 where
  pub text : String
  pub loc : String

pub record RouteDirectives : Type 0 where
  pub is_public : Bool
  pub error_statuses : List ℤ

-- `at` is the location of the first recognised directive.
pub record DirectiveGroup : Type 0 where
  pub rd : RouteDirectives
  pub names : List String
  pub at : String
  pub trailing : Bool
  pub attached : Bool

-- unicode.IsSpace
unfoldable pub is_space : ℕ → Bool
is_space c =
    (leb 9 c && leb c 13)
    || eqb c 32
    || eqb c 133
    || eqb c 160
    || eqb c 5760
    || (leb 8192 c && leb c 8202)
    || eqb c 8232
    || eqb c 8233
    || eqb c 8239
    || eqb c 8287
    || eqb c 12288

-- What follows a prefix, if the text starts with it.
unfoldable pub cut_prefix : String → String → Option String
cut_prefix String.[] s = some s
cut_prefix (String.◌∷◌ p ps) String.[] = none
cut_prefix (String.◌∷◌ p ps) (String.◌∷◌ c s) =
    let rest = cut_prefix ps s in if eqb (code p) (code c) then rest else none

-- The text before the first "//".
unfoldable pub before_slashes : String → String
before_slashes String.[] = ""
before_slashes (String.◌∷◌ c s) =
    let rest = before_slashes s in
    if eqb (code c) b'/' && has_prefix b'/' s then "" else str_cons c rest

-- The text before the first space, and the text from there.
unfoldable pub split_at_space : String → String × String
split_at_space String.[] = ("", "")
split_at_space (String.◌∷◌ c s) =
    let (name, args) = split_at_space s in
    if is_space (code c) then ("", str_cons c s) else (str_cons c name, args)

unfoldable pub all_digits : String → Bool
all_digits String.[] = true
all_digits (String.◌∷◌ c s) = (leb b'0' (code c) && leb (code c) b'9') && all_digits s

abbrev pub error_status_min : ℤ
error_status_min = pos 400

abbrev pub error_status_max : ℤ
error_status_max = pos 599

unfoldable pub in_status_range : Option ℤ → Option ℤ
in_status_range none = none
in_status_range (some n) =
    if ltb_ℤ n error_status_min || ltb_ℤ error_status_max n then none else some n

unfoldable pub parse_status_token : String → Option ℤ
parse_status_token tok = if all_digits tok then in_status_range (atoi tok) else none

abbrev pub bad_token : String → String
bad_token tok =
    str_append "directive errors: ignoring \""
      (str_append tok "\" — expected an integer status code between 400 and 599")

module _ (go : Go) where
  open go use {trim_space}

  -- The name and the arguments; none for a line that is no directive.
  unfoldable pub parse_directive : String → Option (String × String)
  parse_directive text = elim (cut_prefix "//openapi:" (trim_space text)) [
    | none ↦ none
    | some rest ↦
        let (name, args) = split_at_space (trim_space (before_slashes rest)) in
        some (name, if args == "" then "" else trim_space args)
  ]

  -- The loop over the tokens between commas.
  unfoldable pub parse_status_tokens : List String → Noted (List ℤ)
  parse_status_tokens [] = ([], [])
  parse_status_tokens (raw ∷ raws) =
      let tok = trim_space raw in
      let (codes, notes) = parse_status_tokens raws in
      if tok == "" then (codes, notes) else elim (parse_status_token tok) [
        | none ↦ (codes, bad_token tok ∷ notes)
        | some n ↦ (n ∷ codes, notes)
      ]

  unfoldable pub parse_error_statuses : String → Noted (List ℤ)
  parse_error_statuses args =
      if args == ""
      then (
        [],
        "directive errors requires at least one status code (e.g. //openapi:errors 404,409)" ∷ [],
      )
      else parse_status_tokens (split b',' args)

  -- The payload, whether the name was recognised, and the diagnostics.
  unfoldable pub apply_directive :
      RouteDirectives → String → String → Noted (RouteDirectives × Bool)
  apply_directive rd name args =
      if name == "public"
      then (
        (record rd { is_public = true }, true),
        if args == ""
            then []
            else str_append "directive public takes no arguments (got \"" (str_append args "\")")
              ∷ [],
      )
      else if name == "errors"
      then (let (codes, notes) = parse_error_statuses args in
          ((record rd { error_statuses = rd.error_statuses ++ codes }, true), notes))
      else (
        (rd, false),
        str_append "unknown directive \"" (str_append name "\" — no such openapi directive") ∷ [],
      )

  unfoldable pub note_recognised : DirectiveGroup → String → String → DirectiveGroup
  note_recognised g name loc = record g {
    at = if is_empty g.names then loc else g.at;
    names = if one_of name g.names then g.names else g.names ++ (name ∷ []);
  }

  -- warnDirectivef: the location stands in front.
  unfoldable pub located : String → List String → List String
  located loc [] = []
  located loc (note ∷ notes) = str_append loc (str_append ": " note) ∷ located loc notes

  abbrev new_group : DirectiveGroup
  new_group = record {
    rd = record { is_public = false; error_statuses = [] };
    names = [];
    at = "";
    trailing = false;
    attached = false;
  }

  abbrev or_new : Option DirectiveGroup → DirectiveGroup
  or_new none = new_group
  or_new (some g) = g

  unfoldable pub fold_directive : DirectiveGroup → String → String → String → Noted DirectiveGroup
  fold_directive g name args loc =
      let ((rd, recognised), notes) = apply_directive g.rd name args in
      let folded = record g { rd = rd } in
      (if recognised then note_recognised folded name loc else folded, located loc notes)

  -- The loop over the comments of a group; none while no line was a directive.
  unfoldable pub parse_lines : Option DirectiveGroup → List Comment → Noted (Option DirectiveGroup)
  parse_lines g [] = (g, [])
  parse_lines g (c ∷ cs) = elim (parse_directive c.text) [
    | none ↦ parse_lines g cs
    | some (name, args) ↦
        let (folded, notes) = fold_directive (or_new g) name args c.loc in
        let (last, more) = parse_lines (some folded) cs in (last, notes ++ more)
  ]

  unfoldable pub parse_directive_group : List Comment → Noted (Option DirectiveGroup)
  parse_directive_group cs = parse_lines none cs

-- The groups of one file by the line on which they end: the map of that file in a.directives.
abbrev pub Lines : Type 0
Lines = List (ℕ × DirectiveGroup)

unfoldable pub group_on : ℕ → Lines → Option DirectiveGroup
group_on line [] = none
group_on line ((at, g) ∷ rest) = if eqb at line then some g else group_on line rest

-- Lines count from 1. A call on a line takes the group that ends directly above it, unless that one trails code.
unfoldable pub directive_group_at : Lines → ℕ → Option DirectiveGroup
directive_group_at lines line = elim (group_on (line - 1) lines) [
  | none ↦ none
  | some g ↦ if g.trailing then none else some g
]

unfoldable pub directives_at : Lines → ℕ → RouteDirectives
directives_at lines line = elim (directive_group_at lines line) [
  | none ↦ record { is_public = false; error_statuses = [] }
  | some g ↦ g.rd
]

-- Sets `attached` of the group on a line, unless it trails code.
unfoldable pub attach_on : ℕ → Lines → Lines
attach_on line [] = []
attach_on line ((at, g) ∷ rest) =
    if eqb at line
    then (at, if g.trailing then g else record g { attached = true }) ∷ rest
    else (at, g) ∷ attach_on line rest

unfoldable pub mark_directives_attached : Lines → ℕ → Lines
mark_directives_attached lines line = attach_on (line - 1) lines

unfoldable pub join_names : List String → String
join_names [] = ""
join_names (s ∷ []) = s
join_names (s ∷ t ∷ ts) = str_append s (str_append ", " (join_names (t ∷ ts)))

unfoldable pub detached_directive_message : List String → String
detached_directive_message (s ∷ []) =
    str_append "directive "
      (str_append s " has no effect — it is not directly above an analyzed route registration")
detached_directive_message names = str_append "directives " (
    str_append (join_names names)
      " have no effect — they are not directly above an analyzed route registration")

-- The groups of a walked file that attached to nothing and have a recognised name, in the order of
-- the list, which is that of the sorted lines.
unfoldable pub warn_detached_directives : Lines → List String
warn_detached_directives [] = []
warn_detached_directives ((at, g) ∷ rest) =
    let more = warn_detached_directives rest in
    if not g.attached && not (is_empty g.names)
    then str_append g.at (str_append ": " (detached_directive_message g.names)) ∷ more
    else more

-- slices.Sort and slices.Compact on numbers.
unfoldable pub insert_status : ℤ → List ℤ → List ℤ
insert_status n [] = n ∷ []
insert_status n (m ∷ ms) = if leb_ℤ n m then n ∷ m ∷ ms else m ∷ insert_status n ms

unfoldable pub sort_statuses : List ℤ → List ℤ
sort_statuses [] = []
sort_statuses (n ∷ ns) = insert_status n (sort_statuses ns)

unfoldable pub compact_from : ℤ → List ℤ → List ℤ
compact_from n [] = n ∷ []
compact_from n (m ∷ ms) = if eqb_ℤ n m then compact_from n ms else n ∷ compact_from m ms

unfoldable pub compact : List ℤ → List ℤ
compact [] = []
compact (n ∷ ns) = compact_from n ns

unfoldable pub merge_error_statuses : List ℤ → List ℤ → List ℤ
merge_error_statuses existing [] = existing
merge_error_statuses existing (n ∷ ns) = compact (sort_statuses (existing ++ (n ∷ ns)))

unfoldable pub apply_route_directives : Route → RouteDirectives → Route
apply_route_directives r rd = record r {
  is_public = if rd.is_public then true else r.is_public;
  error_statuses = merge_error_statuses r.error_statuses rd.error_statuses;
}
