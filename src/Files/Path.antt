-- ===== src/Files/Path.antt =====
-- Go's package path, on texts.
pub mod Laws
use text.Mathlib.Text.{◌==◌}
use Prim.Native.Char.{Char}
use Prim.Native.String
use mathlib.Core.List.{reverse, foldl}
use microkube.Base.{String, Bool, true, false, not, List, [], ◌∷◌, ◌||◌, if◌then◌else◌}
use microkube.Base.Texts.{◌++◌}

-- text == ""
unfoldable pub is_empty : String → Bool
is_empty String.[] = true
is_empty (String.◌∷◌ c s) = false

-- A text of one character.
abbrev pub text_of : Char → String
text_of c = String.◌∷◌ c String.[]

-- The texts between the slashes, with one more character in front.
unfoldable pub extend : Char → List String → List String
extend c [] = text_of c ∷ []
extend c (part ∷ parts) = String.◌∷◌ c part ∷ parts

-- The texts between the slashes of a path.
unfoldable pub parts_of : String → List String
unfolding extend
parts_of String.[] = "" ∷ []
parts_of (String.◌∷◌ c s) =
    let rest = parts_of s in if text_of c == "/" then "" ∷ rest else extend c rest

-- The path begins with a slash.
unfoldable pub is_rooted : String → Bool
is_rooted String.[] = false
is_rooted (String.◌∷◌ c s) = text_of c == "/"

-- One step of path.Clean; the stack holds the parts that are kept, last first.
unfoldable pub push : Bool → List String → String → List String
unfolding is_empty
push rooted stack part =
    if is_empty part || part == "."
    then stack
    else if part == ".."
    then elim stack [
      | [] ↦ if rooted then [] else ".." ∷ []
      | top ∷ rest ↦ if top == ".." then ".." ∷ top ∷ rest else rest
    ]
    else part ∷ stack

-- The parts that path.Clean keeps, last first.
unfoldable pub kept : Bool → List String → List String
unfolding push
kept rooted = foldl (push rooted) []

-- Parts with a slash behind each.
unfoldable pub slashed : List String → String
slashed [] = ""
slashed (part ∷ parts) = part ++ ("/" ++ slashed parts)

-- Parts, last first, with a slash between each two.
unfoldable pub joined : List String → String
unfolding slashed
joined [] = ""
joined (part ∷ parts) = slashed (reverse parts) ++ part

-- The path of the parts that are kept.
unfoldable pub rendered : Bool → List String → String
unfolding joined
rendered true parts = "/" ++ joined parts
rendered false [] = "."
rendered false (part ∷ parts) = joined (part ∷ parts)

-- path.Clean
unfoldable pub clean : String → String
unfolding kept rendered parts_of is_empty is_rooted
clean path =
    if is_empty path then "." else rendered (is_rooted path) (kept (is_rooted path) (parts_of path))

-- strings.Join(texts, "/")
unfoldable pub with_slashes : List String → String
with_slashes [] = ""
with_slashes (text ∷ []) = text
with_slashes (text ∷ other ∷ texts) = text ++ ("/" ++ with_slashes (other ∷ texts))

-- path.Join
unfoldable pub join : List String → String
unfolding clean with_slashes is_empty
join [] = ""
join (text ∷ texts) = if is_empty text then join texts else clean (with_slashes (text ∷ texts))

-- path.Dir: what stands before the last slash, and the slash.
unfoldable pub dir_part : String → String
unfolding is_empty
dir_part String.[] = ""
dir_part (String.◌∷◌ c s) =
    let rest = dir_part s in
    if not (is_empty rest) || text_of c == "/" then String.◌∷◌ c rest else ""

unfoldable pub dir : String → String
unfolding clean dir_part
dir path = clean (dir_part path)
