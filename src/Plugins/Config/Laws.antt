-- ===== src/Plugins/Config/Laws.antt =====
-- plugins/: cfgValue, against the first setting of that key in a list of settings.
use tool_i8085_trace.Prelude.{
  length, ℕ, ◌≡◌, refl, ap, ◌∙◌, Bool, true, false, map, ◌&&◌, some, List, [], ◌∷◌, ◌++◌, arith,
  ◌==◌, if◌then◌else◌, same_text, starts_with, drop, Bool-cases, inl, inr,
}
use mathlib.Core.List.{append-nil}
use tool_i8085_trace.Prelude.{lacks}
use tool_i8085_trace.Plugins.Config.{tokens, key_sign, first_value, cfg_value}

pub record Setting : Type 0 where
  pub key : List ℕ
  pub value : List ℕ

abbrev pub setting_text : Setting → List ℕ
setting_text s = s.key ++ b'=' ∷ s.value

-- The text of a list of settings, with a semicolon between two, and behind the last one or not.
abbrev pub text_of : Bool → List Setting → List ℕ
text_of ended [] = []
text_of ended (s ∷ []) = setting_text s ++ (if ended then b';' ∷ [] else [])
text_of ended (s ∷ t ∷ ss) = setting_text s ++ b';' ∷ text_of ended (t ∷ ss)

-- No key contains a sign, no key and no value a semicolon.
abbrev pub Plain : List Setting → Type 0
Plain [] = Unit {0}
Plain (s ∷ ss) =
    (lacks b'=' s.key ≡ true) × (lacks b';' (s.key ++ b'=' ∷ s.value) ≡ true) × Plain ss

-- The value of the first setting of a key, or nothing.
unfoldable pub lookup : List ℕ → List Setting → List ℕ
lookup key [] = []
lookup key (s ∷ ss) = let rest = lookup key ss in if same_text key s.key then s.value else rest

tokens_step : (t rest : List ℕ) → lacks b';' t ≡ true → tokens (t ++ b';' ∷ rest) ≡ t ∷ tokens rest
unfolding tokens lacks
tokens_step [] rest h = refl
tokens_step (c ∷ cs) rest h =
    let e : tokens (cs ++ b';' ∷ rest) ≡ cs ∷ tokens rest =
      tokens_step cs rest (ground (arith, h)) in
    ground (arith, e, h)

-- The last piece needs no semicolon, where there is something in it.
tokens_last : (c : ℕ) (t : List ℕ) → lacks b';' (c ∷ t) ≡ true → tokens (c ∷ t) ≡ (c ∷ t) ∷ []
unfolding tokens lacks
tokens_last c [] h = ground (arith, h)
tokens_last c (d ∷ t) h =
    let e : tokens (d ∷ t) ≡ (d ∷ t) ∷ [] = tokens_last d t (ground (arith, h)) in
    ground (arith, e, h)

tokens_setting :
    (key value : List ℕ)
    → lacks b';' (key ++ b'=' ∷ value) ≡ true
    → tokens (key ++ b'=' ∷ value) ≡ (key ++ b'=' ∷ value) ∷ []
tokens_setting [] value h = tokens_last b'=' value h
tokens_setting (c ∷ key) value h = tokens_last c (key ++ b'=' ∷ value) h

-- The pieces of the text are the settings, however it ends.
tokens-text_of :
    (ended : Bool) (ss : List Setting) → Plain ss → tokens (text_of ended ss) ≡ map setting_text ss
unfolding tokens
tokens-text_of ended [] plain = refl
tokens-text_of true (s ∷ []) (keyed, parted, plain) = tokens_step (setting_text s) [] parted
tokens-text_of false (s ∷ []) (keyed, parted, plain) =
    rw (append-nil (setting_text s)) (tokens_setting s.key s.value parted)
tokens-text_of ended (s ∷ t ∷ ss) (keyed, parted, plain) =
    tokens_step (setting_text s) (text_of ended (t ∷ ss)) parted
    ∙ ap (λ ts. setting_text s ∷ ts) (tokens-text_of ended (t ∷ ss) plain)

starts_with-key_sign :
    (k key value : List ℕ)
    → lacks b'=' k ≡ true
    → lacks b'=' key ≡ true
    → starts_with (key_sign k) (key ++ b'=' ∷ value) ≡ same_text k key
unfolding starts_with same_text lacks
starts_with-key_sign [] [] value h g = refl
starts_with-key_sign [] (d ∷ ds) value h g = ground (arith, h, g)
starts_with-key_sign (c ∷ cs) [] value h g = ground (arith, h, g)
starts_with-key_sign (c ∷ cs) (d ∷ ds) value h g =
    let e : starts_with (key_sign cs) (ds ++ b'=' ∷ value) ≡ same_text cs ds =
      starts_with-key_sign cs ds value (ground (arith, h)) (ground (arith, g)) in
    ap (λ x. c == d && x) e

drop-key_sign :
    (k key value : List ℕ)
    → same_text k key ≡ true
    → drop (length (key_sign k)) (key ++ b'=' ∷ value) ≡ value
unfolding same_text
drop-key_sign [] [] value h = refl
drop-key_sign [] (d ∷ ds) value h = ground (arith, h)
drop-key_sign (c ∷ cs) [] value h = ground (arith, h)
drop-key_sign (c ∷ cs) (d ∷ ds) value h = drop-key_sign cs ds value (ground (arith, h))

value_step :
    (s : Setting) (ss : List Setting) (k : List ℕ)
    → starts_with (key_sign k) (setting_text s) ≡ same_text k s.key
    → first_value (key_sign k) (map setting_text ss) ≡ lookup k ss
    → first_value (key_sign k) (setting_text s ∷ map setting_text ss) ≡ lookup k (s ∷ ss)
unfolding first_value lookup
value_step s ss k found rest = elim (Bool-cases (same_text k s.key)) [
  | inl t ↦
      let value : drop (length (key_sign k)) (setting_text s) ≡ s.value =
        drop-key_sign k s.key s.value t in
      ground (arith, found, t, value)
  | inr f ↦ ground (arith, found, f, rest)
]

first_value-lookup :
    (ss : List Setting) (k : List ℕ)
    → Plain ss
    → lacks b'=' k ≡ true
    → first_value (key_sign k) (map setting_text ss) ≡ lookup k ss
unfolding first_value lookup
first_value-lookup [] k plain h = refl
first_value-lookup (s ∷ ss) k (keyed, parted, plain) h =
    value_step s ss k (starts_with-key_sign k s.key s.value h keyed)
      (first_value-lookup ss k plain h)

-- `cfgValue` finds in the text of a list of settings, with a semicolon between two and behind the last
-- one or not, the value of the first setting of the key, and nothing where there is none. No key,
-- the one sought included, contains an equals sign, and no key or value a semicolon.
pub cfg_value-lookup :
    (ended : Bool) (ss : List Setting) (k : List ℕ)
    → Plain ss
    → lacks b'=' k ≡ true
    → cfg_value (some (text_of ended ss)) k ≡ lookup k ss
unfolding cfg_value
cfg_value-lookup ended ss k plain h =
    ap (first_value (key_sign k)) (tokens-text_of ended ss plain) ∙ first_value-lookup ss k plain h
