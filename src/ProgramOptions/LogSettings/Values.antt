-- ===== src/ProgramOptions/LogSettings/Values.antt =====
-- What utils/program_options/log.cpp keeps of the values of each option.
use fb_utils.Prelude.{
  ◌≡◌, refl, sym, ap, inl, inr, Bool, true, false, [], ◌∷◌, ◌++◌, List, Option, none, some, Str,
  equal, equal_iff, if◌then◌else◌, Bool-cases,
}
use fb_utils.ProgramOptions.LogSettings.Trees.{
  value_in, later, earlier, has_values, later-append, earlier-append, value_in-put,
  value_in-emplace, has_values-put,
}
use fb_utils.Spirit.{Spirit}
use fb_utils.ProgramOptions.IniOptions.{ParsedOption, last?}
use fb_utils.ProgramOptions.LogSettings.{
  Tree, Settings, is_setting, add_tokens, add_option, init_log, Core, set_up, init_log_from_parsed,
}

-- What an option says of a name, where it is not registered and has two tokens.
abbrev pub given_by : Str → Bool → List Str → List Str
given_by name true (n ∷ value ∷ []) = if equal n name then value ∷ [] else []
given_by name _ _ = []

-- The values that unregistered options give to a name, in order.
unfoldable pub given : Str → List ParsedOption → List Str
given name [] = []
given name (o ∷ options) = given_by name o.unregistered o.original_tokens ++ given name options

-- How the settings are after some values were given to a name.
pub record Took (x : Spirit) (name : Str) (values : List Str) (s r : Settings) : Type 0 where
  pub tree_lem :
      value_in name r.tree
      ≡ (if is_setting x name then later (value_in name s.tree) values else value_in name s.tree)
  pub map_lem : value_in name r.options_map ≡ (
      if is_setting x name
      then value_in name s.options_map
      else earlier (value_in name s.options_map) values)
  pub has_lem : s.has_log_settings ≡ has_values s.tree → r.has_log_settings ≡ has_values r.tree

earlier_none : (o : Option Str) → o ≡ earlier o []
earlier_none none = refl
earlier_none (some v) = refl

none_given : (x : Spirit) (name : Str) (s : Settings) → Took x name [] s s
none_given x name s = record {
  tree_lem = elim (Bool-cases (is_setting x name)) [ inl e ↦ rw (e) refl | inr e ↦ rw (e) refl ];
  map_lem = elim (Bool-cases (is_setting x name)) [
    | inl e ↦ rw (e) refl
    | inr e ↦ rw (e) (earlier_none (value_in name s.options_map))
  ];
  has_lem = λ h. h;
}

add_tokens-Took :
    (x : Spirit) (name n v : Str) (s : Settings)
    → Took x name (if equal n name then v ∷ [] else []) s (add_tokens x n v s)
unfolding add_tokens
add_tokens-Took x name n v s = elim (Bool-cases (equal n name)) [
  | inl k ↦
      let same : is_setting x n ≡ is_setting x name =
        ap (λ text. is_setting x text) ((equal_iff n name).0 k) in
      elim (Bool-cases (is_setting x name)) [
        | inl e ↦
            rw (k, same, e)
              (record {
                tree_lem = rw (value_in-put name n v s.tree, k, e) refl;
                map_lem = rw (e) refl;
                has_lem = λ h. sym (has_values-put n v s.tree);
              })
        | inr e ↦
            rw (k, same, e)
              (record {
                tree_lem = rw (e) refl;
                map_lem = rw (value_in-emplace name n v s.options_map, k, e) refl;
                has_lem = λ h. h;
              })
      ]
  | inr k ↦ rw (k) (elim (Bool-cases (is_setting x n)) [
    | inl e ↦ rw (e) (record {
      tree_lem = rw (value_in-put name n v s.tree, k) (none_given x name s).tree_lem;
      map_lem = (none_given x name s).map_lem;
      has_lem = λ h. sym (has_values-put n v s.tree);
    })
    | inr e ↦ rw (e) (record {
      tree_lem = (none_given x name s).tree_lem;
      map_lem = rw (value_in-emplace name n v s.options_map, k) (none_given x name s).map_lem;
      has_lem = λ h. h;
    })
  ])
]

add_option-Took :
    (x : Spirit) (name : Str) (unregistered : Bool) (tokens : List Str) (s : Settings)
    → Took x name (given_by name unregistered tokens) s (add_option x unregistered tokens s)
unfolding add_option
add_option-Took x name false tokens s = none_given x name s
add_option-Took x name true [] s = none_given x name s
add_option-Took x name true (n ∷ []) s = none_given x name s
add_option-Took x name true (n ∷ v ∷ []) s = add_tokens-Took x name n v s
add_option-Took x name true (n ∷ v ∷ w ∷ tokens) s = none_given x name s

Took-append :
    (x : Spirit) (name : Str) (vs ws : List Str) (s r u : Settings)
    → Took x name vs s r
    → Took x name ws r u
    → Took x name (vs ++ ws) s u
Took-append x name vs ws s r u h k = elim (Bool-cases (is_setting x name)) [
  | inl e ↦
      let h_tree = rw (e) at h.tree_lem in
      let h_map = rw (e) at h.map_lem in
      record {
        tree_lem = rw (k.tree_lem, e, h_tree) (sym (later-append (value_in name s.tree) vs ws));
        map_lem = rw (k.map_lem, e) h_map;
        has_lem = λ l. k.has_lem (h.has_lem l);
      }
  | inr e ↦
      let h_tree = rw (e) at h.tree_lem in
      let h_map = rw (e) at h.map_lem in
      record {
        tree_lem = rw (k.tree_lem, e) h_tree;
        map_lem =
            rw (k.map_lem, e, h_map) (sym (earlier-append (value_in name s.options_map) vs ws));
        has_lem = λ l. k.has_lem (h.has_lem l);
      }
]

pub init_log-Took :
    (x : Spirit) (name : Str) (options : List ParsedOption) (s : Settings)
    → Took x name (given name options) s (init_log x options s)
unfolding init_log given
init_log-Took x name [] s = none_given x name s
init_log-Took x name (o ∷ options) s =
    let next = add_option x o.unregistered o.original_tokens s in
    Took-append x name (given_by name o.unregistered o.original_tokens) (given name options) s next
      (init_log x options next) (add_option-Took x name o.unregistered o.original_tokens s)
      (init_log-Took x name options next)

later_lem : (values : List Str) → later none values ≡ last? values
later_lem [] = refl
later_lem (v ∷ []) = refl
later_lem (v ∷ w ∷ values) = later_lem (w ∷ values)

-- The function sets up Boost.Log with a tree that has, for each name of a setting, the last of the
-- values that unregistered options of two tokens give to it, and nothing for other names; it tells
-- whether the tree has a value; and in the options map each name of no setting has the value that it
-- had, or else the first of those given to it, and the names of settings are as they were.
pub init_log_from_parsed_lem :
    (x : Spirit) {S : Type 0} (core : Core S) (options : List ParsedOption) (map : Tree) (s : S)
    → (tree : Tree) × (left : Tree) × (init_log_from_parsed x core options map s
        ≡ (set_up core tree (has_values tree) s, left))
      × ((name : Str)
          → (value_in name tree ≡ (if is_setting x name then last? (given name options) else none))
            × (value_in name left ≡ (
                if is_setting x name
                then value_in name map
                else earlier (value_in name map) (given name options))))
unfolding init_log_from_parsed value_in
init_log_from_parsed_lem x core options map s =
    let start : Settings = record { tree = []; options_map = map; has_log_settings = false } in
    let r = init_log x options start in
    (
      r.tree,
      r.options_map,
      rw ((init_log-Took x [] options start).has_lem refl) refl,
      λ name. (
        rw (← later_lem (given name options)) (init_log-Took x name options start).tree_lem,
        (init_log-Took x name options start).map_lem,
      ),
    )
