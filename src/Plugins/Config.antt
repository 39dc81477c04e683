-- ===== src/Plugins/Config.antt =====
-- plugins/: the settings that a plugin's `i8085_io_plugin_init` reads from its text, such as
-- `base=0x40;clkdiv=2`: cfgValue, parseNum and truthy, which the plugins repeat.
pub mod Laws
use tool_i8085_trace.Prelude.{
  length, ℕ, Bool, true, false, ◌||◌, Option, none, some, List, [], ◌∷◌, ◌++◌, ◌==◌, if◌then◌else◌,
  u32, strtoul, auto_base, codes, same_text, starts_with, drop,
}

-- The pieces between semicolons; nothing is left of an empty text.
abbrev pub in_front : ℕ → List (List ℕ) → List (List ℕ)
in_front c [] = (c ∷ []) ∷ []
in_front c (t ∷ ts) = (c ∷ t) ∷ ts

unfoldable pub tokens : List ℕ → List (List ℕ)
tokens [] = []
tokens (c ∷ cs) = let rest = tokens cs in if c == b';' then [] ∷ rest else in_front c rest

-- `key` with the sign behind it.
abbrev pub key_sign : List ℕ → List ℕ
key_sign key = key ++ b'=' ∷ []

unfoldable pub first_value : List ℕ → List (List ℕ) → List ℕ
first_value k [] = []
first_value k (tok ∷ toks) =
    let rest = first_value k toks in if starts_with k tok then drop (length k) tok else rest

-- `cfgValue`; no text at all is a null pointer.
unfoldable pub cfg_value : Option (List ℕ) → List ℕ → List ℕ
cfg_value none key = []
cfg_value (some s) key = first_value (key_sign key) (tokens s)

-- `parseNum`
unfoldable pub parse_num : List ℕ → ℕ → ℕ
parse_num [] def = def
parse_num (c ∷ cs) def = u32 (strtoul (auto_base (c ∷ cs)) (c ∷ cs)).0

unfoldable pub truthy : List ℕ → Bool
truthy s =
    same_text s (codes "on")
    || same_text s (codes "1")
    || same_text s (codes "true")
    || same_text s (codes "yes")
