-- ===== src/Components/Grow.antt =====
-- The walk of addRefNames only adds names, and finds a reference behind pointers.
use go_bricks_openapi.Prelude.{String, ◌≡◌, refl, true, List, In, inl, inr}
use go_bricks_openapi.Models.{
  unset, pointer, slice, array, map_of, named, primitive, anonymous, unknown, instantiation, ref,
  kind_only, marshaler, recursive, text, TypeShape, type_shape, ShapePtr, no_shape, ptr, StructPtr,
  no_struct, unextracted, extracted, Fields, end, and_field, field_info, kind, type_name,
}
use go_bricks_openapi.Shapes.{strip_pointers}
use go_bricks_openapi.Schemas.Field.{is_ref}
use go_bricks_openapi.Components.Names.{
  add_ref_names, add_ptr_ref_names, add_inline_ref_names, add_field_ref_names,
}

abbrev pub Within : List String → List String → Type 0
Within ms ns = (n : String) → In n ms → In n ns

-- The walk only adds names.
mutual
  unfolding add_ref_names

  pub grow : (out : List String) (s : TypeShape) → Within out (add_ref_names out s)
  grow out (type_shape pointer m key el i st) n h = grow_ptr out el n h
  grow out (type_shape slice m key el i st) n h = grow_ptr out el n h
  grow out (type_shape array m key el i st) n h = grow_ptr out el n h
  grow out (type_shape map_of m key el i st) n h = grow_ptr out el n h
  grow out (type_shape ref m key el i st) n h = inr h
  grow out (type_shape anonymous m key el i st) n h = grow_inline out st n h
  grow out (type_shape unset m key el i st) n h = h
  grow out (type_shape named m key el i st) n h = h
  grow out (type_shape primitive m key el i st) n h = h
  grow out (type_shape unknown m key el i st) n h = h
  grow out (type_shape instantiation m key el i st) n h = h
  grow out (type_shape kind_only m key el i st) n h = h
  grow out (type_shape marshaler m key el i st) n h = h
  grow out (type_shape recursive m key el i st) n h = h
  grow out (type_shape text m key el i st) n h = h

  pub grow_ptr : (out : List String) (s : ShapePtr) → Within out (add_ptr_ref_names out s)
  grow_ptr out no_shape n h = h
  grow_ptr out (ptr s) n h = grow out s n h

  pub grow_inline : (out : List String) (st : StructPtr) → Within out (add_inline_ref_names out st)
  grow_inline out no_struct n h = h
  grow_inline out unextracted n h = h
  grow_inline out (extracted fs) n h = grow_fields out fs n h

  pub grow_fields : (out : List String) (fs : Fields) → Within out (add_field_ref_names out fs)
  grow_fields out end n h = h
  grow_fields out (and_field (field_info t sh no_shape) fs) n h =
      grow_fields (add_ref_names out sh) fs n (grow out sh n h)
  grow_fields out (and_field (field_info t sh (ptr r)) fs) n h =
      grow_fields (add_ref_names out r) fs n (grow out r n h)

-- A reference behind pointers is named.
pub strip_pointers-named :
    (out : List String) (s : TypeShape)
    → is_ref (kind (strip_pointers s)) ≡ true
    → In (type_name (strip_pointers s)) (add_ref_names out s)
unfolding strip_pointers add_ref_names
strip_pointers-named out (type_shape pointer m key (ptr s) i st) h = strip_pointers-named out s h
strip_pointers-named out (type_shape pointer m key no_shape i st) h = cc
strip_pointers-named out (type_shape slice m key el i st) h = cc
strip_pointers-named out (type_shape array m key el i st) h = cc
strip_pointers-named out (type_shape map_of m key el i st) h = cc
strip_pointers-named out (type_shape ref m key el i st) h = inl refl
strip_pointers-named out (type_shape anonymous m key el i st) h = cc
strip_pointers-named out (type_shape unset m key el i st) h = cc
strip_pointers-named out (type_shape named m key el i st) h = cc
strip_pointers-named out (type_shape primitive m key el i st) h = cc
strip_pointers-named out (type_shape unknown m key el i st) h = cc
strip_pointers-named out (type_shape instantiation m key el i st) h = cc
strip_pointers-named out (type_shape kind_only m key el i st) h = cc
strip_pointers-named out (type_shape marshaler m key el i st) h = cc
strip_pointers-named out (type_shape recursive m key el i st) h = cc
strip_pointers-named out (type_shape text m key el i st) h = cc
