-- ===== src/Tree/Build/Rows.antt =====
-- The rows of the `elements` table, and JSON values as `serde_json` gives them: an object is the
-- list of its entries in the order of iteration, and a number is its text.
use lovely_rs.Base.{Bool, Option, Text, text_eq}
use lovely_rs.Tree.Errors.{Uuid}
use lovely_rs.Tree.Tags.{is_text_tag}

mutual
  pub data Json : Type 0 where
    null : Json
    boolean : Bool → Json
    number : Text → Json
    string : Text → Json
    array : Items → Json
    object : Fields → Json

  pub data Items : Type 0 where
    nil : Items
    cons : Json → Items → Items

  pub data Fields : Type 0 where
    end : Fields
    field : Text → Json → Fields → Fields

pub record ElementRow : Type 0 where
  pub id : Uuid
  pub parent_id : Option Uuid
  pub prev_sibling : Option Uuid
  pub tag : Text
  pub attrs_json : Json
  pub text : Option Text

-- `ElementRow::is_tag` and `ElementRow::is_text`.
unfoldable pub is_tag : ElementRow → Text → Bool
is_tag r name = text_eq r.tag name

unfoldable pub is_text : ElementRow → Bool
unfolding is_text_tag
is_text r = is_text_tag r.tag
