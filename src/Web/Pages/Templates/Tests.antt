-- ===== src/Web/Pages/Templates/Tests.antt =====
-- A run of interpolation.
use lovely_rs.Base.{◌≡◌, refl, Option, none, List, [], ◌∷◌, Text, codes, trim}
use lovely_rs.Tree.Build.Rows as Rows
use lovely_rs.Tree.Build.Rows.{Json, string, object}
use lovely_rs.Web.Pages.Templates.{interpolate, interpolate_named, get, filled, fill_named}
use lovely_rs.Web.Pages.Templates.Segments.{
  Segment, literal, hole, print, fill_in, interpolate-print,
}

abbrev no_text : Json → Text
no_text v = []

abbrev greeting : List Segment
greeting = literal (codes "Dear ") ∷ hole (codes " name ") ∷ literal (codes "!") ∷ []

abbrev ada : Json
ada = object (Rows.field (codes "name") (string (codes "Ada")) Rows.end)

abbrev no_cache : Text → Option Json
no_cache name = none

interpolate_example :
    (interpolate no_text (print greeting) ada
      ≡ fill_in (λ k. filled no_text [] (get ada (trim k))) greeting)
    × (interpolate_named no_text (print greeting) no_cache
        ≡ fill_in (fill_named no_text no_cache) greeting)
interpolate_example = interpolate-print no_text greeting ada no_cache (refl, (refl, (refl, tt)))

greeting-interpolate : interpolate no_text (print greeting) ada ≡ codes "Dear Ada!"
unfolding interpolate
greeting-interpolate = refl
