-- ===== src/Wm/Hints.antt =====
-- daemon-wm/src/hints.rs: letter hints for the windows, and the matching of typed input.
pub mod Scan
pub mod Match
pub mod Assign
pub mod Shorthand
use mathlib.Core.Option
use open_sesame.Prelude.{
  ℕ, zero, suc, ◌+◌, ◌*◌, ◌-◌, ◌/◌, ◌%◌, ◌^◌, ◌++◌, Bool, ◌&&◌, ◌||◌, Option, none, some, List, [],
  ◌∷◌, map, ltb, leb, ◌==◌, if◌then◌else◌, length, is_empty, get_elem?, first, take, drop,
  replicate, any, all,
}
use open_sesame.Prelude.Text.{
  Text, Unicode, text_eq, starts_with, str_len, is_ascii_digit, is_ascii_alphabetic,
  to_ascii_lowercase,
}
use open_sesame.Wm.Config.{WmKeyBinding, KeyBindings}

-- The loop `for i in 0..count`, with the index counted up and the rounds down.
assign_hints_from : Text → ℕ → ℕ → List Text
assign_hints_from keys i zero = []
assign_hints_from keys i (suc n) = elim (get_elem? keys (i % length keys)) [
  | none ↦ []
  | some key ↦ replicate (i / length keys + 1) key ∷ assign_hints_from keys (i + 1) n
]

unfoldable pub assign_hints : ℕ → Text → List Text
unfolding assign_hints_from
assign_hints count hint_keys =
    if count == 0 || is_empty hint_keys then [] else assign_hints_from hint_keys 0 count

pub data MatchResult : Type 0 where
  no_match : MatchResult
  partial : List ℕ → MatchResult
  exact : ℕ → MatchResult

-- `while letter_end > 0 && chars[letter_end - 1].is_ascii_digit() { letter_end -= 1 }`.
unfoldable pub letter_end : Text → ℕ → ℕ
letter_end chars zero = 0
letter_end chars (suc n) =
    let rest = letter_end chars n in
    elim (get_elem? chars n) [ none ↦ suc n | some c ↦ if is_ascii_digit c then rest else suc n ]

unfoldable pub decimal : ℕ → Text → ℕ
decimal n [] = n
decimal n (c ∷ s) = decimal (n * 10 + (c - 48)) s

-- `str::parse::<usize>` of a run of ASCII digits.
unfoldable pub parse_usize : Text → Option ℕ
unfolding decimal
parse_usize [] = none
parse_usize s = if ltb (decimal 0 s) (2 ^ 64) then some (decimal 0 s) else none

abbrev expand : Text → Text → Option ℕ → Text
expand input [] num = input
expand input letters none = input
expand input (base ∷ letters) (some num) =
    if ltb 0 num && leb num 26 && all (λ c. c == base) letters then replicate num base else input

-- The numeric shorthand of a lower-case input: "a2" is "aa".
unfoldable pub expand_shorthand : Text → Text
unfolding letter_end parse_usize
expand_shorthand input =
    let cut = letter_end input (length input) in
    if leb 2 (str_len input) && ltb 0 cut && ltb cut (length input)
    then expand input (take cut input) (parse_usize (drop cut input))
    else input

-- `chars().find(|c| c.is_ascii_alphabetic())`.
abbrev find_alphabetic : Text → Option ℕ
find_alphabetic [] = none
find_alphabetic (c ∷ s) = if is_ascii_alphabetic c then some c else find_alphabetic s

abbrev after_last_dot : Text → Option Text
after_last_dot [] = none
after_last_dot (c ∷ s) = elim (after_last_dot s) [
  | some t ↦ some t
  | none ↦ if c == b'.' then some s else none
]

-- `rsplit('.').next()`: the text behind the last dot, or all of it.
unfoldable pub last_segment : Text → Text
last_segment s = Option.get_or (after_last_dot s) s

unfoldable pub auto_key_for_app : Text → Option ℕ
unfolding last_segment
auto_key_for_app app_id = Option.map to_ascii_lowercase (find_alphabetic (last_segment app_id))

-- The loop over the hints from index `i`: the last exact match, and all that share the prefix.
unfoldable pub scan_hints : Text → ℕ → List Text → Option ℕ → List ℕ → Option ℕ × List ℕ
scan_hints normalized i [] found indices = (found, indices)
scan_hints normalized i (hint ∷ hints) found indices =
    let same = text_eq hint normalized in
    scan_hints normalized (suc i) hints (if same then some i else found)
      (if same || starts_with hint normalized then indices ++ i ∷ [] else indices)

unfoldable pub classify : Option ℕ × List ℕ → MatchResult
classify (found, []) = no_match
classify (some idx, _ ∷ []) = exact idx
classify (_, indices) = partial indices

unfoldable pub match_normalized : Text → List Text → MatchResult
unfolding classify
match_normalized normalized hints =
    if is_empty normalized then no_match else classify (scan_hints normalized 0 hints none [])

module _ (u : Unicode) where
  unfoldable pub normalize_input : Text → Text
  unfolding expand_shorthand
  normalize_input input = expand_shorthand (u.str_lowercase input)

  unfoldable pub match_input : Text → List Text → MatchResult
  unfolding match_normalized
  match_input input hints = match_normalized (normalize_input input) hints

  -- The test on one pattern of a binding.
  unfoldable pub matches_pattern : Text → Text → Bool
  matches_pattern app_id pattern =
      text_eq pattern app_id
      || text_eq (u.str_lowercase pattern) (u.str_lowercase app_id)
      || text_eq (u.str_lowercase (last_segment app_id)) (u.str_lowercase pattern)

  unfoldable pub key_for_app : Text → KeyBindings → Option ℕ
  unfolding matches_pattern
  key_for_app app_id [] = auto_key_for_app app_id
  key_for_app app_id ((key, binding) ∷ bindings) =
      let rest = key_for_app app_id bindings in
      if any (matches_pattern app_id) binding.apps then first key else rest

  -- `key_bindings.get(&key.to_lowercase().to_string())`.
  unfoldable pub binding_for_key : ℕ → KeyBindings → Option WmKeyBinding
  binding_for_key key [] = none
  binding_for_key key ((k, binding) ∷ bindings) =
      if text_eq k (u.char_lowercase key) then some binding else binding_for_key key bindings

  unfoldable pub launch_for_key : ℕ → KeyBindings → Option Text
  launch_for_key key bindings = elim (binding_for_key key bindings) [
    | none ↦ none
    | some b ↦ b.launch
  ]

  unfoldable pub tags_for_key : ℕ → KeyBindings → List Text
  tags_for_key key bindings = elim (binding_for_key key bindings) [ none ↦ [] | some b ↦ b.tags ]

  unfoldable pub launch_args_for_key : ℕ → KeyBindings → List Text
  launch_args_for_key key bindings = elim (binding_for_key key bindings) [
    | none ↦ []
    | some b ↦ b.launch_args
  ]

-- `by_key`: the indices of the windows, by their key. The map's order is that of first use; the
-- sort by index makes the result the same for every order.
abbrev pub Groups : Type 0
Groups = List (ℕ × List ℕ)

-- `by_key.entry(key).or_default().push(i)`.
unfoldable pub push_index : ℕ → ℕ → Groups → Groups
push_index key i [] = (key, i ∷ []) ∷ []
push_index key i ((k, is) ∷ groups) =
    if k == key then (k, is ++ i ∷ []) ∷ groups else (k, is) ∷ push_index key i groups

unfoldable pub group_keys : ℕ → List ℕ → Groups → Groups
group_keys i [] groups = groups
group_keys i (key ∷ keys) groups = group_keys (suc i) keys (push_index key i groups)

abbrev pub Hint : Type 0
Hint = Text × ℕ

-- The hints of one group, `count` of which are done.
unfoldable pub group_hints : ℕ → ℕ → List ℕ → List Hint
group_hints base count [] = []
group_hints base count (idx ∷ indices) =
    (replicate (suc count) base, idx) ∷ group_hints base (suc count) indices

unfoldable pub all_hints : Groups → List Hint
all_hints [] = []
all_hints ((base, indices) ∷ groups) = group_hints base 0 indices ++ all_hints groups

-- `sort_by_key(|&(_, idx)| idx)`, which is stable.
unfoldable pub insert_by_index : Hint → List Hint → List Hint
insert_by_index h [] = h ∷ []
insert_by_index h (g ∷ hints) = if leb h.1 g.1 then h ∷ g ∷ hints else g ∷ insert_by_index h hints

unfoldable pub sort_by_index : List Hint → List Hint
sort_by_index [] = []
sort_by_index (h ∷ hints) = insert_by_index h (sort_by_index hints)

module _ (u : Unicode) where
  -- `key_for_app(app_id, key_bindings).unwrap_or('a')` for each window.
  unfoldable pub app_keys : KeyBindings → List Text → List ℕ
  app_keys bindings = map (λ app_id. Option.get_or (key_for_app u app_id bindings) b'a')

  unfoldable pub assign_app_hints : List Text → KeyBindings → List Hint
  assign_app_hints app_ids bindings =
      sort_by_index (all_hints (group_keys 0 (app_keys bindings app_ids) []))
