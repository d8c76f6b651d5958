-- ===== src/Analyzer/Binding/Binds.antt =====
-- Which parameters go-bricks binds, internal/analyzer/binding.go.
use go_bricks_openapi.Prelude.{
  String, ◌≡◌, ◌≢◌, ◌⊎◌, ◌↔◌, refl, inl, inr, Bool, true, false, ◌==◌, if◌then◌else◌, arith, eq_iff,
}
use go_bricks_openapi.Models.{type_shape, ShapePtr, no_shape, ptr}
use go_bricks_openapi.Analyzer.Binding.{
  FieldFallback, BinderKind, kind_unresolved, kind_string, kind_scalar, kind_time, kind_pointer,
  kind_slice, kind_byte_slice, kind_array, kind_struct, kind_map, kind_interface, kind_complex,
  kind_uintptr, kind_func_or_chan, kind_reasons, binder_kind_of, elem_reason, slice_bind_reason,
  pointer_bind_reason, bind_reason, param_bind_reason,
}

-- A string, another scalar or a time; a slice of strings outside the path; a pointer to what binds
-- and is no slice.
BindsAs : BinderKind → String → BinderKind → Type 0 → Type 0
BindsAs kind_string source elem below = Unit
BindsAs kind_scalar source elem below = Unit
BindsAs kind_time source elem below = Unit
BindsAs kind_slice source elem below = (source ≢ "path") × (elem ≡ kind_string)
BindsAs kind_pointer source elem below = (elem ≢ kind_slice) × (elem ≢ kind_byte_slice) × below
BindsAs _ source elem below = ⊥

pub Binds : String → FieldFallback → ShapePtr → Type 0
Binds source fb no_shape = ⊥
Binds source fb (ptr (type_shape k n key el i st)) =
    BindsAs (binder_kind_of (ptr (type_shape k n key el i st)) fb) source (binder_kind_of el fb)
      (Binds source fb el)

abbrev Accepts : String × Bool → Type 0
Accepts reason = (reason.0 ≡ "") × (reason.1 ≡ true)

text_given : (t : String) (known : Bool) → (t == "") ≡ false → Accepts (t, known) → ⊥
text_given t known given a = ground (arith, eq_iff t "")

elem_reason-Accepts : (elem : BinderKind) → Accepts (elem_reason elem) ↔ (elem ≡ kind_string)
unfolding elem_reason
elem_reason-Accepts kind_string = (λ a. refl, λ e. (refl, refl))
elem_reason-Accepts kind_unresolved = ground arith
elem_reason-Accepts _ = ground (arith, text_given "a slice whose element is not a string" true refl)

pointer_bind_reason-Accepts :
    (elem : BinderKind) (reason : String × Bool)
    → Accepts (pointer_bind_reason elem reason)
      ↔ ((elem ≢ kind_slice) × (elem ≢ kind_byte_slice) × Accepts reason)
unfolding pointer_bind_reason
pointer_bind_reason-Accepts kind_slice reason =
    (λ a. absurd (text_given "a pointer to a slice" true refl a), λ b. absurd (b.0 refl))
pointer_bind_reason-Accepts kind_byte_slice reason =
    (λ a. absurd (text_given "a pointer to a slice" true refl a), λ b. absurd (b.1 refl))
pointer_bind_reason-Accepts _ reason =
    ((λ a. ((λ e. ground arith), (λ e. ground arith), a)), (λ b. b.2))

if-Accepts :
    (b : Bool) (x y : String × Bool)
    → Accepts (if b then x else y) ↔ (((b ≡ true) × Accepts x) ⊎ ((b ≡ false) × Accepts y))
if-Accepts true x y = ground arith
if-Accepts false x y = ground arith

slice_bind_reason-Accepts :
    (source : String) (elem : BinderKind)
    → Accepts (slice_bind_reason kind_slice source elem)
      ↔ ((source ≢ "path") × (elem ≡ kind_string))
unfolding slice_bind_reason
slice_bind_reason-Accepts source elem = ground (
  arith,
  eq_iff source "path",
  elem_reason-Accepts elem,
  if-Accepts (source == "path") ("a slice in a path parameter", true) (elem_reason elem),
  text_given "a slice in a path parameter" true refl,
)

byte_slice-Accepts :
    (source : String) (elem : BinderKind)
    → Accepts (slice_bind_reason kind_byte_slice source elem)
    → ⊥
unfolding slice_bind_reason
byte_slice-Accepts source elem h =
    elim ((if-Accepts (source == "path") ("a slice in a path parameter", true)
        ("a slice whose element is not a string", true)).0
      h) [
        | inl (at_path, a) ↦ text_given "a slice in a path parameter" true refl a
        | inr (off_path, a) ↦ text_given "a slice whose element is not a string" true refl a
      ]

bind_reason-Accepts :
    (k : BinderKind) (source : String) (elem : BinderKind) (reason : String × Bool) (below : Type 0)
    → Accepts reason ↔ below
    → Accepts (bind_reason k source elem reason) ↔ BindsAs k source elem below
unfolding bind_reason kind_reasons BindsAs
bind_reason-Accepts kind_pointer source elem reason below h =
    let pointed = pointer_bind_reason-Accepts elem reason in
    (
      (λ a. let (c, d, e) = pointed.0 a in (c, d, h.0 e)),
      (λ b. let (c, d, e) = b in pointed.1 (c, d, h.1 e)),
    )
bind_reason-Accepts kind_slice source elem reason below h = slice_bind_reason-Accepts source elem
bind_reason-Accepts kind_byte_slice source elem reason below h =
    (byte_slice-Accepts source elem, λ b. absurd b)
bind_reason-Accepts kind_string source elem reason below h = (λ a. tt, λ b. (refl, refl))
bind_reason-Accepts kind_scalar source elem reason below h = (λ a. tt, λ b. (refl, refl))
bind_reason-Accepts kind_time source elem reason below h = (λ a. tt, λ b. (refl, refl))
bind_reason-Accepts kind_unresolved source elem reason below h =
    ((λ a. ground arith), (λ b. absurd b))
bind_reason-Accepts kind_array source elem reason below h =
    (text_given (kind_reasons kind_array) true refl, λ b. absurd b)
bind_reason-Accepts kind_struct source elem reason below h =
    (text_given (kind_reasons kind_struct) true refl, λ b. absurd b)
bind_reason-Accepts kind_map source elem reason below h =
    (text_given (kind_reasons kind_map) true refl, λ b. absurd b)
bind_reason-Accepts kind_interface source elem reason below h =
    (text_given (kind_reasons kind_interface) true refl, λ b. absurd b)
bind_reason-Accepts kind_complex source elem reason below h =
    (text_given (kind_reasons kind_complex) true refl, λ b. absurd b)
bind_reason-Accepts kind_uintptr source elem reason below h =
    (text_given (kind_reasons kind_uintptr) true refl, λ b. absurd b)
bind_reason-Accepts kind_func_or_chan source elem reason below h =
    (text_given (kind_reasons kind_func_or_chan) true refl, λ b. absurd b)

-- A parameter is found to bind exactly if it is a string, another scalar or a time, or a slice of
-- strings outside the path, or a pointer to one that is no slice.
pub param_bind_reason-Binds :
    (r : ShapePtr) (source : String) (fb : FieldFallback)
    → (((param_bind_reason r source fb).0 ≡ "") × ((param_bind_reason r source fb).1 ≡ true))
      ↔ Binds source fb r
unfolding param_bind_reason Binds
param_bind_reason-Binds no_shape source fb = ((λ a. ground arith), (λ b. absurd b))
param_bind_reason-Binds (ptr (type_shape k n key el i st)) source fb =
    bind_reason-Accepts (binder_kind_of (ptr (type_shape k n key el i st)) fb) source
      (binder_kind_of el fb) (param_bind_reason el source fb) (Binds source fb el)
      (param_bind_reason-Binds el source fb)
