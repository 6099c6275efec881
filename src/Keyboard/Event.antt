-- ===== src/Keyboard/Event.antt =====
-- The events of statics/include/keyboard.js: what the DOM gives, what the stages hand on, and the
-- key and the key symbol that an event is about.
use native.Mathlib.Decide.{ℕ_discrete}
use routercenter_old.Prelude.{
  ℕ, Bool, false, Option, none, some, List, [], ◌∷◌, ◌==◌, if◌then◌else◌,
}
use routercenter_old.Keyboard.Keysym.{keysym_from_key_code, substitute_codepoint}

-- The types of the events that the stages hand on. The DOM's own are keydown, keypress and keyup.
pub data EventType : Type 0 where
  stall keydown keypress keyup releaseall : EventType

-- What `getKey` gives: the text `key:code`, or the code, or the key's name.
pub data KeyId : Type 0 where
  both : List ℕ → ℕ → KeyId
  code : ℕ → KeyId
  name : List ℕ → KeyId

unfoldable pub KeyId-discrete : Discrete (Option KeyId)
unfolding ℕ_discrete
KeyId-discrete = hlevel ℕ_discrete

-- A DOM event; `none` is a property that is not there. Text is its char codes.
pub record DomEvent : Type 0 where
  pub char : Option (List ℕ)
  pub char_code : Option ℕ
  pub key_code : Option ℕ
  pub key : Option (List ℕ)
  pub which : Option ℕ
  pub of_keypress : Bool
  pub ctrl_key : Option Bool
  pub alt_key : Option Bool
  pub alt_graph_key : Option Bool
  pub shift_key : Option Bool
  pub meta_key : Option Bool

-- An event on its way; a key symbol object is its number, which is never 0.
pub record Event : Type 0 where
  pub type : EventType
  pub key_id : Option KeyId
  pub keysym : Option ℕ
  pub escape : Option (List ℕ)

-- A number that is missing or 0 is false to JavaScript.
abbrev pub truthy : Option ℕ → Option ℕ
truthy none = none
truthy (some n) = if n == 0 then none else some n

abbrev pub or_else : Option ℕ → Option ℕ → Option ℕ
or_else none o = o
or_else (some n) o = some n

-- `getKey`, and `if (keyId)` behind it: 0 and the empty text count as none.
unfoldable pub key_of : Option ℕ → Option (List ℕ) → Option KeyId
key_of (some c) (some k) = some (both k c)
key_of (some c) none = if c == 0 then none else some (code c)
key_of none (some []) = none
key_of none (some (x ∷ xs)) = some (name (x ∷ xs))
key_of none none = none

unfoldable pub get_key : DomEvent → Option KeyId
unfolding key_of
get_key evt = key_of evt.key_code evt.key

-- `keysyms.lookup`
unfoldable pub lookup_keysym : Option ℕ → Option ℕ
lookup_keysym = truthy

-- `evt.char`, if it is one char
abbrev single_char : Option (List ℕ) → Option ℕ
single_char (some (c ∷ [])) = some c
single_char _ = none

abbrev is_down : Option Bool → Bool
is_down none = false
is_down (some b) = b

-- The code point that the event names, as `getKeysym` looks for it.
unfoldable pub codepoint_of : DomEvent → Option ℕ
codepoint_of evt = elim (single_char evt.char) [
  | some c ↦ some c
  | none ↦ or_else (truthy evt.char_code) (if evt.of_keypress then truthy evt.key_code else none)
]

-- `keysymdef.js` is a generated table: the key symbol of a code point.
module _ (codepoints : ℕ → Option ℕ) where
  unfoldable pub from_unicode : ℕ → Option ℕ
  unfolding lookup_keysym
  from_unicode u = lookup_keysym (codepoints u)

  unfoldable pub keysym_of_char : Option ℕ → Option ℕ
  unfolding from_unicode substitute_codepoint
  keysym_of_char cp = elim (truthy cp) [
    | none ↦ none
    | some c ↦ from_unicode (substitute_codepoint c)
  ]

  unfoldable pub keysym_of_code : DomEvent → Option ℕ
  unfolding lookup_keysym
  keysym_of_code evt = elim (or_else (truthy evt.key_code) (truthy evt.which)) [
    | none ↦ none
    | some c ↦ lookup_keysym (keysym_from_key_code c (is_down evt.shift_key))
  ]

  unfoldable pub get_keysym : DomEvent → Option ℕ
  unfolding codepoint_of keysym_of_char keysym_of_code
  get_keysym evt = or_else (keysym_of_char (codepoint_of evt)) (keysym_of_code evt)
