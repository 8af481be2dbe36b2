-- ===== src/Db/Collections/Fields.antt =====
-- The fields of a collection and their JSON form.
use lovely_rs.Base.{
  ◌≡◌, refl, ap, Option, none, some, List, [], ◌∷◌, if◌then◌else◌, Text, codes, text_eq,
}
use lovely_rs.Tree.Build.Rows as Rows
use lovely_rs.Tree.Build.Rows.{Json, string, array, object, Items}
use lovely_rs.Db.Elements.{get_field}
use lovely_rs.Db.Intent.{ColumnKind}

pub data FieldType : Type 0 where
  text : FieldType
  long_text : FieldType
  number : FieldType
  email : FieldType
  url : FieldType
  date : FieldType
  date_time : FieldType
  bool : FieldType
  address : FieldType

-- `FieldType::as_str`.
unfoldable pub as_str : FieldType → Text
as_str text = codes "text"
as_str long_text = codes "longtext"
as_str number = codes "number"
as_str email = codes "email"
as_str url = codes "url"
as_str date = codes "date"
as_str date_time = codes "datetime"
as_str bool = codes "bool"
as_str address = codes "address"

-- `FieldType::from_str`.
unfoldable pub from_str : Text → Option FieldType
from_str s =
    if text_eq s (codes "text")
    then some text
    else if text_eq s (codes "longtext")
    then some long_text
    else if text_eq s (codes "number")
    then some number
    else if text_eq s (codes "email")
    then some email
    else if text_eq s (codes "url")
    then some url
    else if text_eq s (codes "date")
    then some date
    else if text_eq s (codes "datetime")
    then some date_time
    else if text_eq s (codes "bool")
    then some bool
    else if text_eq s (codes "address")
    then some address
    else none

unfoldable pub label : FieldType → Text
label text = codes "Text"
label long_text = codes "Long text"
label number = codes "Number"
label email = codes "Email"
label url = codes "URL"
label date = codes "Date"
label date_time = codes "Date & time"
label bool = codes "True / False"
label address = codes "Address"

unfoldable pub column_kind : FieldType → ColumnKind
column_kind text = ColumnKind.text
column_kind long_text = ColumnKind.text
column_kind number = ColumnKind.real
column_kind email = ColumnKind.text
column_kind url = ColumnKind.text
column_kind date = ColumnKind.datetime
column_kind date_time = ColumnKind.datetime
column_kind bool = ColumnKind.boolean
column_kind address = ColumnKind.text

pub record Field : Type 0 where
  pub name : Text
  pub field_type : FieldType

-- A field of the schema: a name, or an object with a name and a type, `text` where the type is
-- not known.
abbrev text_of : Option Json → Option Text
text_of (some (string s)) = some s
text_of _ = none

abbrev type_of : Option FieldType → FieldType
type_of none = text
type_of (some t) = t

abbrev known_type : Option Text → Option FieldType
unfolding from_str
known_type none = none
known_type (some s) = from_str s

abbrev typed : Option FieldType → Option Text → Option Field
typed t none = none
typed t (some name) = some (record { name = name; field_type = type_of t })

unfoldable pub decode_field : Json → Option Field
unfolding get_field known_type
decode_field (string s) = some (record { name = s; field_type = text })
decode_field (object m) =
    typed (known_type (text_of (get_field m (codes "type")))) (text_of (get_field m (codes "name")))
decode_field _ = none

abbrev push_field : Option Field → List Field → List Field
push_field none fields = fields
push_field (some f) fields = f ∷ fields

unfoldable pub decode_items : Items → List Field
unfolding decode_field
decode_items Rows.nil = []
decode_items (Rows.cons v items) = push_field (decode_field v) (decode_items items)

-- `decode_fields`.
unfoldable pub decode_fields : Json → List Field
unfolding decode_items
decode_fields (array items) = decode_items items
decode_fields _ = []

unfoldable pub encode_items : List Field → Items
unfolding as_str
encode_items [] = Rows.nil
encode_items (f ∷ fields) =
    Rows.cons
      (object (
        Rows.field (codes "name") (string f.name)
          (Rows.field (codes "type") (string (as_str f.field_type)) Rows.end)))
      (encode_items fields)

-- `encode_fields`.
unfoldable pub encode_fields : List Field → Json
unfolding encode_items
encode_fields fields = array (encode_items fields)

pub from-as_str : (t : FieldType) → from_str (as_str t) ≡ some t
unfolding from_str as_str
from-as_str text = refl
from-as_str long_text = refl
from-as_str number = refl
from-as_str email = refl
from-as_str url = refl
from-as_str date = refl
from-as_str date_time = refl
from-as_str bool = refl
from-as_str address = refl

decode-encode_items : (fields : List Field) → decode_items (encode_items fields) ≡ fields
unfolding decode_items encode_items decode_field get_field
decode-encode_items [] = refl
decode-encode_items (f ∷ fields) =
    rw (from-as_str f.field_type) (ap (λ l. f ∷ l) (decode-encode_items fields))

-- The fields of a schema are read back from their JSON form, with their names, their types and
-- their order.
pub decode-encode_fields : (fields : List Field) → decode_fields (encode_fields fields) ≡ fields
unfolding decode_fields encode_fields
decode-encode_fields fields = decode-encode_items fields
