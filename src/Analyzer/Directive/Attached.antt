-- ===== src/Analyzer/Directive/Attached.antt =====
-- Which directives are reported as detached, internal/analyzer/directive.go.
use go_bricks_openapi.Prelude.{
  ℕ, ◌-◌, ◌≡◌, Bool, false, not, ◌&&◌, ◌||◌, some, List, [], ◌∷◌, eqb, arith,
}
use go_bricks_openapi.Analyzer.Directive.{
  DirectiveGroup, Lines, group_on, attach_on, mark_directives_attached,
}

-- The walk: a registration call on each of these lines.
pub mark_all : Lines → List ℕ → Lines
mark_all lines [] = lines
mark_all lines (call ∷ calls) = mark_all (mark_directives_attached lines call) calls

-- A call stands on the line below.
pub called_below : ℕ → List ℕ → Bool
called_below line [] = false
called_below line (call ∷ calls) = eqb (call - 1) line || called_below line calls

-- The group with the flag as the calls leave it.
abbrev flagged : DirectiveGroup → Bool → DirectiveGroup
flagged g called = record g { attached = g.attached || (called && not g.trailing) }

group_on-attach_on :
    (line at : ℕ) (lines : Lines) (g : DirectiveGroup)
    → group_on line lines ≡ some g
    → group_on line (attach_on at lines) ≡ some (flagged g (eqb at line))
unfolding group_on attach_on
group_on-attach_on line at [] g h = cc
group_on-attach_on line at ((k, first) ∷ rest) g h =
    ground (arith, group_on-attach_on line at rest g)

-- Once the walk is over, a group that did not trail code is attached if and only if it was before or
-- a registration call stands on the line below it; everything else of it is as it was.
pub group_on-mark_all :
    (line : ℕ) (calls : List ℕ) (lines : Lines) (g : DirectiveGroup)
    → group_on line lines ≡ some g
    → group_on line (mark_all lines calls)
      ≡ some (record g { attached = g.attached || (called_below line calls && not g.trailing) })
unfolding mark_all called_below mark_directives_attached
group_on-mark_all line [] lines g h = ground (arith, h)
group_on-mark_all line (call ∷ calls) lines g h =
    let step = group_on-attach_on line (call - 1) lines g h in
    let next = flagged g (eqb (call - 1) line) in
    ground (arith, group_on-mark_all line calls (attach_on (call - 1) lines) next step)
