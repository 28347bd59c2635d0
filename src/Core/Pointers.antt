-- ===== src/Core/Pointers.antt =====
-- packages/hexastack_core/src/hexastack_core/domain/pointers.py: JSON pointers over documents of dicts,
-- lists and scalars, with texts as keys. `set_pointer` is the one that changes the document in place.
pub mod Escaping
pub mod Setting
mod Tests
use Prim.Native.Nat.{suc}
use hexastack.Base.{
  ℕ, zero, ◌+◌, ◌-◌, Bool, true, false, Option, none, some, List, [], ◌∷◌, ◌==◌, ltb, leb,
  if◌then◌else◌,
}
use hexastack.Base.Int.{ℤ, pos, negsuc}
use hexastack.Base.Outcome.{
  Outcome, returned, raised, interrupted, Done, ◌>>=◌, pointer_resolution_error, index_error,
}
use hexastack.Base.Text.{Text, same, split, int, isdigit, replace_char, replace_pair}

pub escape_pointer : Text → Text
escape_pointer segment =
    replace_char b'/' (b'~' ∷ b'1' ∷ []) (replace_char b'~' (b'~' ∷ b'0' ∷ []) segment)

pub unescape_pointer : Text → Text
unescape_pointer segment =
    replace_pair b'~' b'0' (b'~' ∷ []) (replace_pair b'~' b'1' (b'/' ∷ []) segment)

abbrev unescape_all : List Text → List Text
unescape_all [] = []
unescape_all (s ∷ ss) = unescape_pointer s ∷ unescape_all ss

-- `_split_pointer`
pub split_pointer : Text → Outcome (List Text)
unfolding unescape_pointer
split_pointer [] = returned []
split_pointer (c ∷ s) =
    if c == b'/' then returned (unescape_all (split b'/' s)) else raised pointer_resolution_error

mutual
  pub data Doc : Type 0 where
    null : Doc
    scalar : ℕ → Doc
    arr : Items → Doc
    obj : Fields → Doc

  pub data Items : Type 0 where
    nil : Items
    cons : Doc → Items → Items

  pub data Fields : Type 0 where
    end : Fields
    field : Text → Doc → Fields → Fields

-- What Python's lists and dicts do.
abbrev pub count : Items → ℕ
count nil = 0
count (cons d ds) = suc (count ds)

abbrev pub item : ℕ → Items → Option Doc
item n nil = none
item zero (cons d ds) = some d
item (suc n) (cons d ds) = item n ds

abbrev pub put_item : ℕ → Doc → Items → Items
put_item n v nil = nil
put_item zero v (cons d ds) = cons v ds
put_item (suc n) v (cons d ds) = cons d (put_item n v ds)

abbrev pub append : Items → Doc → Items
append nil v = cons v nil
append (cons d ds) v = cons d (append ds v)

abbrev pub value : Text → Fields → Option Doc
value k end = none
value k (field j d fs) = if same k j then some d else value k fs

abbrev pub put_value : Text → Doc → Fields → Fields
put_value k v end = field k v end
put_value k v (field j d fs) = if same k j then field j v fs else field j d (put_value k v fs)

-- `default`, which may be missing, in place of an error.
abbrev pub or_default : Option Doc → Outcome Doc
or_default none = raised pointer_resolution_error
or_default (some d) = returned d

abbrev found_or : Option Doc → Option Doc → Outcome Doc
found_or default none = or_default default
found_or default (some d) = returned d

resolve_mapping_step : Option Doc → Text → Fields → Outcome Doc
resolve_mapping_step default segment fs = found_or default (value segment fs)

resolve_index : Option Doc → Option ℤ → Items → Outcome Doc
resolve_index default none ds = or_default default
resolve_index default (some (pos n)) ds = found_or default (item n ds)
resolve_index default (some (negsuc n)) ds = raised pointer_resolution_error

resolve_sequence_step : Option Doc → Text → Items → Outcome Doc
unfolding resolve_index
resolve_sequence_step default segment ds = resolve_index default (int segment) ds

-- The loop of `resolve_pointer`: a step that gives the default goes on from it, and a value that is no
-- container ends the loop.
pub resolve : Option Doc → List Text → Doc → Outcome Doc
unfolding resolve_mapping_step resolve_sequence_step
resolve default [] current = returned current
resolve default (seg ∷ segs) (obj fs) = resolve_mapping_step default seg fs >>= resolve default segs
resolve default (seg ∷ segs) (arr ds) =
    resolve_sequence_step default seg ds >>= resolve default segs
resolve default (seg ∷ segs) null = or_default default
resolve default (seg ∷ segs) (scalar n) = or_default default

pub resolve_pointer : Doc → Text → Option Doc → Outcome Doc
unfolding resolve split_pointer
resolve_pointer doc pointer default = split_pointer pointer >>= λ segs. resolve default segs doc

-- `while len(current) <= list_idx: current.append(filler)`; the appended values are new ones.
pub pad : ℕ → Doc → Items → Items
pad zero filler nil = cons filler nil
pad zero filler (cons d ds) = cons d ds
pad (suc n) filler nil = cons filler (pad n filler nil)
pad (suc n) filler (cons d ds) = cons d (pad n filler ds)

-- A negative index counts from the end; `none` is an `IndexError`.
abbrev from_end : ℕ → ℕ → Option ℕ
from_end n len = if leb (suc n) len then some (len - suc n) else none

set_nth : Option ℕ → Doc → Items → Done × Doc
set_nth none v ds = (raised index_error, arr ds)
set_nth (some i) v ds = (returned tt, arr (put_item i v ds))

set_index : Option ℤ → Doc → Items → Done × Doc
unfolding set_nth pad
set_index none v ds = (raised pointer_resolution_error, arr ds)
set_index (some (pos n)) v ds = (returned tt, arr (put_item n v (pad n null ds)))
set_index (some (negsuc n)) v ds = set_nth (from_end n (count ds)) v ds

-- `_set_terminal_value`, with the container after it.
pub set_terminal_value : Text → Doc → Doc → Done × Doc
unfolding set_index
set_terminal_value last v (obj fs) = (returned tt, obj (put_value last v fs))
set_terminal_value last v (arr ds) =
    if same last (b'-' ∷ []) then (returned tt, arr (append ds v)) else set_index (int last) v ds
set_terminal_value last v null = (raised pointer_resolution_error, null)
set_terminal_value last v (scalar n) = (raised pointer_resolution_error, scalar n)

-- The container that is made where there is none.
abbrev fresh : Text → Doc
fresh next = if isdigit next then arr nil else obj end

-- The child of a dict that `_navigate_intermediate` goes on from.
abbrev child : Text → Option Doc → Doc
child next none = fresh next
child next (some null) = fresh next
child next (some (scalar n)) = fresh next
child next (some (arr ds)) = arr ds
child next (some (obj fs)) = obj fs

abbrev or_null : Option Doc → Doc
or_null none = null
or_null (some d) = d

abbrev in_field : Text → Fields → Done × Doc → Done × Doc
in_field seg fs (r, d) = (r, obj (put_value seg d fs))

abbrev in_item : ℕ → Items → Done × Doc → Done × Doc
in_item i ds (r, d) = (r, arr (put_item i d ds))

-- `set_pointer` over the unescaped segments: what it ends with, and the document as it is then. The
-- function on the rest of the segments is passed on by the loop.
into_nth : Option ℕ → (Doc → Done × Doc) → Items → Done × Doc
into_nth none go ds = (raised index_error, arr ds)
into_nth (some i) go ds = in_item i ds (go (or_null (item i ds)))

into_index : Option ℤ → Text → (Doc → Done × Doc) → Items → Done × Doc
unfolding into_nth pad
into_index none next go ds = (raised pointer_resolution_error, arr ds)
into_index (some (pos n)) next go ds = into_nth (some n) go (pad n (fresh next) ds)
into_index (some (negsuc n)) next go ds = into_nth (from_end n (count ds)) go ds

navigate : Text → Text → (Doc → Done × Doc) → Doc → Done × Doc
unfolding into_index
navigate seg next go (obj fs) = in_field seg fs (go (child next (value seg fs)))
navigate seg next go (arr ds) = into_index (int seg) next go ds
navigate seg next go null = (raised pointer_resolution_error, null)
navigate seg next go (scalar n) = (raised pointer_resolution_error, scalar n)

pub set_segments : Text → List Text → Doc → Doc → Done × Doc
unfolding set_terminal_value navigate
set_segments seg [] v doc = set_terminal_value seg v doc
set_segments seg (next ∷ segs) v doc = navigate seg next (set_segments next segs v) doc

set_split : Outcome (List Text) → Doc → Doc → Done × Doc
unfolding set_segments
set_split (returned (seg ∷ segs)) v doc = set_segments seg segs v doc
set_split (returned []) v doc = (raised pointer_resolution_error, doc)
set_split (raised e) v doc = (raised e, doc)
set_split interrupted v doc = (interrupted, doc)

pub set_pointer : Doc → Text → Doc → Done × Doc
unfolding set_split split_pointer
set_pointer doc pointer v = set_split (split_pointer pointer) v doc
