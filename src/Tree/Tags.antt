-- ===== src/Tree/Tags.antt =====
-- crates/lovely-tree/src/tags.rs: the whitelist of element tags. The macro `define_tags!` makes the
-- enum, `from_name`, `name` and `ALL` from one list of pairs, which is `arms` here.
pub mod Laws
use lovely_rs.Base.{
  Bool, true, false, Option, none, some, List, [], ◌∷◌, map, if◌then◌else◌, Text, codes, text_eq,
}

pub data ElementTag : Type 0 where
  text body div section article header footer nav main aside : ElementTag
  h1 h2 h3 h4 h5 h6 p span strong em : ElementTag
  blockquote code pre a ul ol li img figure figcaption : ElementTag
  table thead tbody tr th td form input textarea select : ElementTag
  button label hr br : ElementTag

-- `ElementTag::name`.
unfoldable pub name : ElementTag → Text
name ElementTag.text = codes "#text"
name ElementTag.body = codes "#body"
name ElementTag.div = codes "div"
name ElementTag.section = codes "section"
name ElementTag.article = codes "article"
name ElementTag.header = codes "header"
name ElementTag.footer = codes "footer"
name ElementTag.nav = codes "nav"
name ElementTag.main = codes "main"
name ElementTag.aside = codes "aside"
name ElementTag.h1 = codes "h1"
name ElementTag.h2 = codes "h2"
name ElementTag.h3 = codes "h3"
name ElementTag.h4 = codes "h4"
name ElementTag.h5 = codes "h5"
name ElementTag.h6 = codes "h6"
name ElementTag.p = codes "p"
name ElementTag.span = codes "span"
name ElementTag.strong = codes "strong"
name ElementTag.em = codes "em"
name ElementTag.blockquote = codes "blockquote"
name ElementTag.code = codes "code"
name ElementTag.pre = codes "pre"
name ElementTag.a = codes "a"
name ElementTag.ul = codes "ul"
name ElementTag.ol = codes "ol"
name ElementTag.li = codes "li"
name ElementTag.img = codes "img"
name ElementTag.figure = codes "figure"
name ElementTag.figcaption = codes "figcaption"
name ElementTag.table = codes "table"
name ElementTag.thead = codes "thead"
name ElementTag.tbody = codes "tbody"
name ElementTag.tr = codes "tr"
name ElementTag.th = codes "th"
name ElementTag.td = codes "td"
name ElementTag.form = codes "form"
name ElementTag.input = codes "input"
name ElementTag.textarea = codes "textarea"
name ElementTag.select = codes "select"
name ElementTag.button = codes "button"
name ElementTag.label = codes "label"
name ElementTag.hr = codes "hr"
name ElementTag.br = codes "br"

-- The arms of the macro's `match s`, in their order.
unfoldable pub arms : List (Text × ElementTag)
arms =
    (codes "#text", ElementTag.text)
    ∷ (codes "#body", ElementTag.body)
    ∷ (codes "div", ElementTag.div)
    ∷ (codes "section", ElementTag.section)
    ∷ (codes "article", ElementTag.article)
    ∷ (codes "header", ElementTag.header)
    ∷ (codes "footer", ElementTag.footer)
    ∷ (codes "nav", ElementTag.nav)
    ∷ (codes "main", ElementTag.main)
    ∷ (codes "aside", ElementTag.aside)
    ∷ (codes "h1", ElementTag.h1)
    ∷ (codes "h2", ElementTag.h2)
    ∷ (codes "h3", ElementTag.h3)
    ∷ (codes "h4", ElementTag.h4)
    ∷ (codes "h5", ElementTag.h5)
    ∷ (codes "h6", ElementTag.h6)
    ∷ (codes "p", ElementTag.p)
    ∷ (codes "span", ElementTag.span)
    ∷ (codes "strong", ElementTag.strong)
    ∷ (codes "em", ElementTag.em)
    ∷ (codes "blockquote", ElementTag.blockquote)
    ∷ (codes "code", ElementTag.code)
    ∷ (codes "pre", ElementTag.pre)
    ∷ (codes "a", ElementTag.a)
    ∷ (codes "ul", ElementTag.ul)
    ∷ (codes "ol", ElementTag.ol)
    ∷ (codes "li", ElementTag.li)
    ∷ (codes "img", ElementTag.img)
    ∷ (codes "figure", ElementTag.figure)
    ∷ (codes "figcaption", ElementTag.figcaption)
    ∷ (codes "table", ElementTag.table)
    ∷ (codes "thead", ElementTag.thead)
    ∷ (codes "tbody", ElementTag.tbody)
    ∷ (codes "tr", ElementTag.tr)
    ∷ (codes "th", ElementTag.th)
    ∷ (codes "td", ElementTag.td)
    ∷ (codes "form", ElementTag.form)
    ∷ (codes "input", ElementTag.input)
    ∷ (codes "textarea", ElementTag.textarea)
    ∷ (codes "select", ElementTag.select)
    ∷ (codes "button", ElementTag.button)
    ∷ (codes "label", ElementTag.label)
    ∷ (codes "hr", ElementTag.hr)
    ∷ (codes "br", ElementTag.br)
    ∷ []

-- `ElementTag::ALL`.
unfoldable pub all_tags : List ElementTag
unfolding arms
all_tags = map (λ r. r.1) arms

-- A match against literals: the first arm that is equal to the text.
unfoldable pub select_arm : List (Text × ElementTag) → Text → Option ElementTag
select_arm [] s = none
select_arm ((n, tag) ∷ more) s = if text_eq s n then some tag else select_arm more s

-- `ElementTag::from_name`.
unfoldable pub from_name : Text → Option ElementTag
unfolding select_arm arms
from_name s = select_arm arms s

-- `ElementTag::TEXT_NAME` and `ElementTag::BODY_NAME`.
abbrev pub text_name : Text
text_name = codes "#text"

abbrev pub body_name : Text
body_name = codes "#body"

-- `ElementTag::is_leaf`.
unfoldable pub is_leaf : ElementTag → Bool
is_leaf ElementTag.text = true
is_leaf ElementTag.img = true
is_leaf ElementTag.br = true
is_leaf ElementTag.hr = true
is_leaf ElementTag.input = true
is_leaf ElementTag.textarea = true
is_leaf ElementTag.select = true
is_leaf _ = false

-- `ElementTag::is_text` and `ElementTag::is_body`.
unfoldable pub is_text : ElementTag → Bool
is_text ElementTag.text = true
is_text _ = false

unfoldable pub is_body : ElementTag → Bool
is_body ElementTag.body = true
is_body _ = false

unfoldable pub is_text_tag : Text → Bool
is_text_tag s = text_eq s text_name

unfoldable pub is_body_tag : Text → Bool
is_body_tag s = text_eq s body_name
