-- ===== src/Page/Tests.antt =====
-- Runs of page.go on small inputs, and its theorems at such inputs.
use bbolt.Prelude.{◌≡◌, ◌↔◌, refl, [], ◌∷◌, ok, panic, arith}
use bbolt.Prelude.Search.{search_first}
use bbolt.Page.{Page, leaf, typ, fast_check}
use bbolt.Page.Checks.{OneFlag, fast_check-ok_iff}
use bbolt.Page.Element
use bbolt.Page.Element.{LeafPageElement, fill, fields-fill, fill_long_key}
use bbolt.Page.Merge.{merge, mergepgids}
use bbolt.Page.Merge.Union.{MergedInto, mergepgids-MergedInto}

abbrev leaf_page : Page
leaf_page = record { id = 7; flags = 2; count = 3; overflow = 1 }

abbrev no_element : LeafPageElement
no_element = record { word = 0 }

leaf_page-typ : typ leaf_page ≡ leaf
unfolding typ
leaf_page-typ = refl

leaf_page_elsewhere : fast_check leaf_page 8 ≡ panic
unfolding fast_check
leaf_page_elsewhere = refl

merge_run : merge (4 ∷ 5 ∷ 9 ∷ []) (2 ∷ 6 ∷ 7 ∷ []) ≡ ok (2 ∷ 4 ∷ 5 ∷ 6 ∷ 7 ∷ 9 ∷ [])
unfolding merge search_first
merge_run = refl

fast_check-ok_iff_example :
    (fast_check leaf_page 7 ≡ ok tt) ↔ ((leaf_page.id ≡ 7) × OneFlag leaf_page.flags)
fast_check-ok_iff_example = fast_check-ok_iff leaf_page 7

leaf_page_checked : fast_check leaf_page 7 ≡ ok tt
unfolding fast_check
leaf_page_checked = refl

fields-fill_example :
    (e : LeafPageElement) × (fill no_element 1 40 3 5 ≡ ok e)
    × (Element.flags e ≡ 1)
    × (Element.pos e ≡ 40)
    × (Element.ksize e ≡ 3)
    × (Element.vsize e ≡ 5)
fields-fill_example =
    fields-fill no_element 1 40 3 5 (omega arith) (omega arith) (omega arith) (omega arith)

mergepgids-MergedInto_example :
    MergedInto
      (0 ∷ 0 ∷ 0 ∷ 8 ∷ [])
      (3 ∷ 5 ∷ [])
      (4 ∷ [])
      (mergepgids (0 ∷ 0 ∷ 0 ∷ 8 ∷ []) (3 ∷ 5 ∷ []) (4 ∷ []))
mergepgids-MergedInto_example = mergepgids-MergedInto (0 ∷ 0 ∷ 0 ∷ 8 ∷ []) (3 ∷ 5 ∷ []) (4 ∷ [])
