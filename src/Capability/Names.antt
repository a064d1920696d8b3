-- ===== src/Capability/Names.antt =====
-- The names of capabilities are read back (src/capability.rs).
use yubihsm_rs.Base.{
  ◌==◌, ◌≡◌, refl, ◌↔◌, Bool, true, false, ◌&&◌, List, [], ◌∷◌, Option, none, some, arith,
}
use text.Mathlib.TextEquality.{eq_iff}
use yubihsm_rs.Base.Texts.{String, text_eq}
use yubihsm_rs.Capability.{fmt, from_str, name_of, flag_of, displayed, parsed}
use yubihsm_rs.Object.Info.{Capability}

-- Whether every arm of one match is answered by the other match.
is_name : Option String → String → Bool
is_name none t = false
is_name (some s) t = text_eq s t

is_flag : Option Capability → Capability → Bool
is_flag none c = false
is_flag (some b) c = b == c

all_named : List (String × Capability) → Bool
all_named [] = true
all_named ((name, c) ∷ arms) = is_name (fmt c) name && all_named arms

all_parsed : List (Capability × String) → Bool
all_parsed [] = true
all_parsed ((c, name) ∷ arms) = is_flag (from_str name) c && all_parsed arms

is_name_eq : (o : Option String) (s : String) → is_name o s ≡ true → o ≡ some s
unfolding is_name
is_name_eq none s h = cc
is_name_eq (some t) s h = ground (arith, eq_iff t s)

is_flag_eq : (o : Option Capability) (c : Capability) → is_flag o c ≡ true → o ≡ some c
unfolding is_flag
is_flag_eq none c h = cc
is_flag_eq (some b) c h = ground arith

flag_of-fmt :
    (arms : List (String × Capability)) (s : String) (c : Capability)
    → all_named arms ≡ true
    → flag_of s arms ≡ some c
    → fmt c ≡ some s
unfolding flag_of all_named
flag_of-fmt [] s c h e = cc
flag_of-fmt ((name, b) ∷ arms) s c h e =
    ground (arith, eq_iff name s, is_name_eq (fmt b) name, flag_of-fmt arms s c)

name_of-from_str :
    (arms : List (Capability × String)) (s : String) (c : Capability)
    → all_parsed arms ≡ true
    → name_of c arms ≡ some s
    → from_str s ≡ some c
unfolding name_of all_parsed
name_of-from_str [] s c h e = cc
name_of-from_str ((b, name) ∷ arms) s c h e =
    ground (arith, is_flag_eq (from_str name) b, name_of-from_str arms s c)

-- A text is read as a capability exactly if it is what the capability is displayed as.
pub capability_from_str_iff :
    (s : String) (c : Capability) → (from_str s ≡ some c) ↔ (fmt c ≡ some s)
capability_from_str_iff s c = (
  λ e.
      flag_of-fmt parsed s c (unfold all_named is_name fmt name_of displayed parsed in refl)
        (unfold from_str in e),
  λ e.
      name_of-from_str displayed s c
        (unfold all_parsed is_flag from_str flag_of displayed parsed in refl) (unfold fmt in e),
)
