-- ===== src/Tests/Hints.antt =====
-- Tests and instances of the theorems on hints.
use open_sesame.Prelude.{◌≡◌, ◌↔◌, refl, List, [], ◌∷◌, map}
use open_sesame.Prelude.Text.{starts_with, text_eq, Text, codes, ascii}
use open_sesame.Wm.Hints.{
  scan_hints, auto_key_for_app, push_index, insert_by_index, group_keys, all_hints, sort_by_index,
  group_hints, assign_hints, match_input, exact, partial, normalize_input, key_for_app,
  assign_app_hints, app_keys,
}
use open_sesame.Wm.Hints.Match.{IsMatch, match_input-exact_iff}

abbrev ids : List Text
ids = codes "org.vim" ∷ codes "com.mitchellh.ghostty" ∷ codes "io.vlc" ∷ []

app_hints : map (λ h. h.0) (assign_app_hints ascii ids []) ≡ codes "v" ∷ codes "g" ∷ codes "vv" ∷ []
unfolding assign_app_hints app_keys sort_by_index all_hints group_keys push_index key_for_app
    auto_key_for_app group_hints insert_by_index
app_hints = refl

match_v2 : match_input ascii (codes "V2") (codes "v" ∷ codes "g" ∷ codes "vv" ∷ []) ≡ exact 2
unfolding match_input normalize_input scan_hints text_eq starts_with
match_v2 = refl

match_v :
    match_input ascii (codes "v") (codes "v" ∷ codes "g" ∷ codes "vv" ∷ []) ≡ partial (0 ∷ 2 ∷ [])
unfolding match_input normalize_input scan_hints text_eq starts_with
match_v = refl

plain_hints :
    assign_hints 6 (codes "asdf")
    ≡ codes "a" ∷ codes "s" ∷ codes "d" ∷ codes "f" ∷ codes "aa" ∷ codes "ss" ∷ []
unfolding assign_hints
plain_hints = refl

match_input-exact_iff_example :
    (match_input ascii (codes "g") (codes "v" ∷ codes "g" ∷ []) ≡ exact 1)
    ↔ IsMatch (normalize_input ascii (codes "g")) (codes "v" ∷ codes "g" ∷ []) 1
match_input-exact_iff_example =
    match_input-exact_iff ascii (codes "g") (codes "v" ∷ codes "g" ∷ []) 1
